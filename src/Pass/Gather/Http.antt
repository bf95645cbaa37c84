-- ===== src/Pass/Gather/Http.antt =====
-- internal/syncer/pass.go: the guest's Ingresses, Gateways and HTTPRoutes, and the whole gathering.
use vcluster_private_cloud_c.Pass.Gather.{
  note_finalizer_holder, refuse_all, want, ref_of, hold, gather_services, backend_resolver,
  add_backends,
}
use vcluster_private_cloud_c.Pass.Listing.{Listing, items, no_match, list_failed}
use vcluster_private_cloud_c.Pass.Limit.{HostReader, apply_address_limit}
use vcluster_private_cloud_c.Gateway.{Gateway, HostGateway, map_gateway}
use vcluster_private_cloud_c.Go.{Library}
use vcluster_private_cloud_c.Ingress.{Ingress, HostIngress, map_ingress}
use vcluster_private_cloud_c.Meta.{ObjectMeta}
use vcluster_private_cloud_c.Pass.Refs.{
  ingress, gateway, route, Ref, of_ingress, of_gateway, of_route, Pass, new_pass,
}
use vcluster_private_cloud_c.Route.{HttpRoute, HostRoute}
use vcluster_private_cloud_c.Route.Rules.{map_http_route}
use vcluster_private_cloud_c.Service.{Service}
use vcluster_private_cloud_c.Tenant.{TenantCluster, sync_ingresses, sync_gateways}
use vcluster_private_cloud_c.Prelude.{
  suc, Bool, ◌&&◌, Option, none, some, List, [], ◌∷◌, ◌++◌, Text, ◌==◌, put, if◌then◌else◌,
}

place_ingress : ObjectMeta → Ref → Option HostIngress → Pass → Pass
place_ingress guest ref none p = p
place_ingress guest ref (some host) p = want ref (record p {
  ingresses = put ◌==◌ host.name host p.ingresses;
  ingress_pairs = p.ingress_pairs ++ record { guest = guest; host_name = host.name } ∷ [];
})

add_backends_for :
    {H : Type 0} → Library → TenantCluster → List Text → Text → Option H → List Text → Pass → Pass
add_backends_for lib tc host_families namespace none names p = p
add_backends_for lib tc host_families namespace (some host) names p =
    add_backends lib tc host_families namespace names p

-- The body of the loop over the guest Ingresses.
unfoldable pub gather_ingress : Library → TenantCluster → List Text → Ingress → Pass → Pass
unfolding place_ingress add_backends_for
gather_ingress lib tc host_families ing p =
    let ref = ref_of ingress ing.meta in
    let noted = note_finalizer_holder ing.meta ref p in
    if ing.meta.deleting
    then noted
    else let held = hold ref ing.meta noted in
      let counted = record held {
        counts = record (held.counts) { ingresses = suc held.counts.ingresses };
      } in
      let res =
        map_ingress lib tc ing (backend_resolver lib tc host_families counted ing.meta.namespace) in
      add_backends_for lib tc host_families ing.meta.namespace res.host res.backends
        (place_ingress ing.meta ref res.host (refuse_all of_ingress ref res.refusals counted))

place_gateway : ObjectMeta → Ref → Option HostGateway → Pass → Pass
place_gateway guest ref none p = p
place_gateway guest ref (some host) p = want ref (record p {
  gateways = put ◌==◌ host.name host p.gateways;
  gateway_pairs = p.gateway_pairs ++ record { guest = guest; host_name = host.name } ∷ [];
  host_owner = put ◌==◌ host.name ref p.host_owner;
})

-- The body of the loop over the guest Gateways.
unfoldable pub gather_gateway : Library → TenantCluster → Gateway → Pass → Pass
unfolding place_gateway
gather_gateway lib tc gw p =
    let ref = ref_of gateway gw.meta in
    let noted = note_finalizer_holder gw.meta ref p in
    if gw.meta.deleting
    then noted
    else let held = hold ref gw.meta noted in
      let counted = record held {
        counts = record (held.counts) { gateways = suc held.counts.gateways };
      } in
      let res = map_gateway lib tc gw in
      place_gateway gw.meta ref res.host (refuse_all of_gateway ref res.refusals counted)

place_route : Ref → Option HostRoute → Pass → Pass
place_route ref none p = p
place_route ref (some host) p = want ref (record p { routes = put ◌==◌ host.name host p.routes })

-- The body of the loop over the guest HTTPRoutes.
unfoldable pub gather_route : Library → TenantCluster → List Text → HttpRoute → Pass → Pass
unfolding place_route add_backends_for
gather_route lib tc host_families rt p =
    let ref = ref_of route rt.meta in
    let noted = note_finalizer_holder rt.meta ref p in
    if rt.meta.deleting
    then noted
    else let held = hold ref rt.meta noted in
      let counted = record held {
        counts = record (held.counts) { http_routes = suc held.counts.http_routes };
      } in
      let res =
        map_http_route lib tc rt
          (backend_resolver lib tc host_families counted rt.meta.namespace) in
      add_backends_for lib tc host_families rt.meta.namespace res.host res.backends
        (place_route ref res.host (refuse_all of_route ref res.refusals counted))

abbrev pub in_turn : {A : Type 0} → (A → Pass → Pass) → List A → Pass → Pass
in_turn step [] p = p
in_turn step (x ∷ xs) p = in_turn step xs (step x p)

unfoldable pub gather_ingresses :
    Library → TenantCluster → List Text → Listing Ingress → Pass → Option Pass
gather_ingresses lib tc host_families (items ings) p =
    some (in_turn (gather_ingress lib tc host_families) ings p)
gather_ingresses lib tc host_families (no_match e) p = none
gather_ingresses lib tc host_families (list_failed e) p = none

-- A guest without the Gateway API has nothing to sync, which is no error.
unfoldable pub gather_gateways :
    Library → TenantCluster → List Text → Listing Gateway → Listing HttpRoute → Pass → Option Pass
gather_gateways lib tc host_families (no_match e) rts p = some p
gather_gateways lib tc host_families (list_failed e) rts p = none
gather_gateways lib tc host_families (items gws) (items rts) p =
    some (in_turn (gather_route lib tc host_families) rts (in_turn (gather_gateway lib tc) gws p))
gather_gateways lib tc host_families (items gws) (no_match e) p =
    some (in_turn (gather_gateway lib tc) gws p)
gather_gateways lib tc host_families (items gws) (list_failed e) p = none

-- What the guest's API server answers to the listings of a pass.
pub record Guest : Type 0 where
  pub services : Listing Service
  pub ingresses : Listing Ingress
  pub gateways : Listing Gateway
  pub routes : Listing HttpRoute

-- An error ends the pass.
abbrev pub and_then : Option Pass → (Pass → Option Pass) → Option Pass
and_then none next = none
and_then (some p) next = next p

-- The first part of `run`: the three gatherings and the limit on addresses. `none` ends the pass
-- before anything is changed.
unfoldable pub desired_state :
    Library → TenantCluster → HostReader → Bool → List Text → Guest → Option Pass
desired_state lib tc host gateway_api host_families guest =
    and_then (gather_services lib tc host_families guest.services new_pass) λ p.
      and_then
        (if sync_ingresses tc
          then gather_ingresses lib tc host_families guest.ingresses p
          else some p)
        λ q.
          and_then
            (if sync_gateways tc && gateway_api
              then gather_gateways lib tc host_families guest.gateways guest.routes q
              else some q)
            λ r. some (apply_address_limit lib tc host gateway_api host_families r)
