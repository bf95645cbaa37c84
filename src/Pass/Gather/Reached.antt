-- ===== src/Pass/Gather/Reached.antt =====
-- When a pass goes on to the host.
use vcluster_private_cloud_c.Gateway.{Gateway}
use vcluster_private_cloud_c.Go.{Library}
use vcluster_private_cloud_c.Ingress.{Ingress}
use vcluster_private_cloud_c.Pass.Gather.{gather_services}
use vcluster_private_cloud_c.Pass.Listing.{Listing, items, no_match, list_failed}
use vcluster_private_cloud_c.Pass.Gather.Http.{
  Guest, gather_ingresses, gather_gateways, and_then, desired_state,
}
use vcluster_private_cloud_c.Pass.Limit.{HostReader}
use vcluster_private_cloud_c.Pass.Refs.{Pass, new_pass}
use vcluster_private_cloud_c.Pass.Listing.{ApiError}
use vcluster_private_cloud_c.Prelude.{
  subst, ◌≡◌, ◌≢◌, refl, Bool, true, ◌&&◌, Option, none, some, List, Text, arith, if◌then◌else◌,
}
use vcluster_private_cloud_c.Route.{HttpRoute}
use vcluster_private_cloud_c.Service.{Service}
use vcluster_private_cloud_c.Tenant.{TenantCluster, sync_ingresses, sync_gateways}

-- The server has listed the items.
pub Listed : {A : Type 0} → Listing A → Type 0
Listed {A = A} l = (xs : List A) × (l ≡ items xs)

-- The server has answered: with the items, or by saying that it does not know the kind.
pub Answered : {A : Type 0} → Listing A → Type 0
Answered l = (e : ApiError) → l ≢ list_failed e

and_then-some :
    (o : Option Pass) (next : Pass → Option Pass) (q : Pass)
    → and_then o next ≡ some q
    → (p : Pass) × (o ≡ some p) × (next p ≡ some q)
and_then-some none next q e = absurd (ground arith)
and_then-some (some p) next q e = (p, refl, e)

module _ (lib : Library) (tc : TenantCluster) (host_families : List Text) where
  gather_services-Listed :
      (l : Listing Service) (p q : Pass)
      → gather_services lib tc host_families l p ≡ some q
      → Listed l
  unfolding gather_services Listed
  gather_services-Listed (items xs) p q e = (xs, refl)
  gather_services-Listed (no_match err) p q e = absurd (ground arith)
  gather_services-Listed (list_failed err) p q e = absurd (ground arith)

  gather_ingresses-Listed :
      (l : Listing Ingress) (p q : Pass)
      → gather_ingresses lib tc host_families l p ≡ some q
      → Listed l
  unfolding gather_ingresses Listed
  gather_ingresses-Listed (items xs) p q e = (xs, refl)
  gather_ingresses-Listed (no_match err) p q e = absurd (ground arith)
  gather_ingresses-Listed (list_failed err) p q e = absurd (ground arith)

  gather_gateways-Answered :
      (l : Listing Gateway) (r : Listing HttpRoute) (p q : Pass)
      → gather_gateways lib tc host_families l r p ≡ some q
      → Answered l
  unfolding gather_gateways Answered
  gather_gateways-Answered (items xs) r p q e err f = ground (arith, f)
  gather_gateways-Answered (no_match other) r p q e err f = ground (arith, f)
  gather_gateways-Answered (list_failed other) r p q e err f = ground (arith, e)

  -- A pass comes as far as to desire anything on the host only if the guest has listed its
  -- Services, and its Ingresses if they are synced, and if it has answered for its Gateways, if
  -- they are synced and the host has the Gateway API.
  pub desired_state-Listed :
      (host : HostReader) (gateway_api : Bool) (guest : Guest) (p : Pass)
      → desired_state lib tc host gateway_api host_families guest ≡ some p
      → Listed guest.services
        × (sync_ingresses tc ≡ true → Listed guest.ingresses)
        × ((sync_gateways tc && gateway_api) ≡ true → Answered guest.gateways)
  unfolding desired_state
  desired_state-Listed host gateway_api guest p e =
      let (p1, e1, rest1) =
        and_then-some (gather_services lib tc host_families guest.services new_pass) _ p e in
      let (p2, e2, rest2) = and_then-some _ _ p rest1 in
      let (p3, e3, rest3) = and_then-some _ _ p rest2 in
      (
        gather_services-Listed guest.services new_pass p1 e1,
        λ on. gather_ingresses-Listed guest.ingresses p1 p2 (
            subst
              (λ (b : Bool).
                (if b then gather_ingresses lib tc host_families guest.ingresses p1 else some p1)
                ≡ some p2)
              on e2),
        λ on. gather_gateways-Answered guest.gateways guest.routes p2 p3 (
            subst
              (λ (b : Bool).
                (if b
                  then gather_gateways lib tc host_families guest.gateways guest.routes p2
                  else some p2)
                ≡ some p3)
              on e3),
      )
