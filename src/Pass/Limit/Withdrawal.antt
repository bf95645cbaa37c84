-- ===== src/Pass/Limit/Withdrawal.antt =====
-- What is left of an endpoint that the limit refuses.
use vcluster_private_cloud_c.Go.{Library}
use vcluster_private_cloud_c.Pass.Refs.{Kind, service, same_ref, same_ref_iff, Pass}
use vcluster_private_cloud_c.Pass.Limit.{
  mapped, Mapped, map_service, same_key, Service, downgraded, if_mapped, cluster_ip, Claim,
  withdraw_claim, downgraded, if_mapped, withdraw_kind, withdraw_service, backend_for,
}
use vcluster_private_cloud_c.Tenant.{TenantCluster}
use vcluster_private_cloud_c.Service.{HostService}
use vcluster_private_cloud_c.Prelude.{
  Bool-cases, sym, subst, ◌≡◌, refl, true, false, List, Text, ◌==◌, ==_iff, Option, none, some,
  find, has, find-put, find-remove, has-without, inl, inr, arith,
}
use vcluster_private_cloud_c.Service.Hosted.{map_service-IsHostOf}
use vcluster_private_cloud_c.Service.Mapping.{Mapped, mapped, cannot, map_service}

-- What is left of a refused LoadBalancer: nothing, and the guest object is no longer held, or
-- a Service without an address under the same name, and the guest object is held as before.
pub data LeftBy (p q : Pass) (c : Claim) : Type 0 where
  gone :
      find ◌==◌ c.host_name q.services ≡ none
      → has same_ref c.ref q.want_finalizer ≡ false
      → LeftBy p q c
  backend_stays :
      (b : HostService)
      → find ◌==◌ c.host_name q.services ≡ some b
      → b.svc_type ≡ cluster_ip
      → has ◌==◌ c.host_name p.backend_needed ≡ true
      → q.want_finalizer ≡ p.want_finalizer
      → LeftBy p q c

module _ (lib : Library) (tc : TenantCluster) (host_families : List Text) (p : Pass)
    (c : Claim) where
  if_mapped-ClusterIp :
      (guest : Service) (b : HostService) (m : Mapped)
      → map_service lib tc guest cluster_ip host_families ≡ m
      → if_mapped m ≡ some b
      → b.svc_type ≡ cluster_ip
  unfolding if_mapped
  if_mapped-ClusterIp guest b (mapped host) q e =
      (map_service-IsHostOf lib tc guest host_families cluster_ip b (ground arith)).svc_type
  if_mapped-ClusterIp guest b (cannot r) q e = absurd (ground arith)

  downgraded-ClusterIp :
      (guest : Option Service) (b : HostService)
      → downgraded lib tc host_families guest ≡ some b
      → b.svc_type ≡ cluster_ip
  unfolding downgraded
  downgraded-ClusterIp none b e = absurd (ground arith)
  downgraded-ClusterIp (some guest) b e =
      if_mapped-ClusterIp guest b (map_service lib tc guest cluster_ip host_families) refl e

  backend_for-ClusterIp :
      (b : HostService)
      → backend_for lib tc host_families p c ≡ some b
      → (b.svc_type ≡ cluster_ip) × (has ◌==◌ c.host_name p.backend_needed ≡ true)
  unfolding backend_for
  backend_for-ClusterIp b e = elim (Bool-cases (has ◌==◌ c.host_name p.backend_needed)) [
    | inl needed ↦
        (downgraded-ClusterIp (find same_key c.ref.key p.guest_svcs) b (ground arith), needed)
    | inr unneeded ↦ absurd (ground arith)
  ]

  withdraw_service-leaves :
      (backend : Option HostService)
      → backend_for lib tc host_families p c ≡ backend
      → LeftBy p (withdraw_service p c backend) c
  unfolding withdraw_service
  withdraw_service-leaves none e =
      gone
        (ground (
          arith,
          find-remove ◌==◌ ==_iff c.host_name c.host_name p.services,
          ==_iff c.host_name c.host_name,
        ))
        (ground (
          arith,
          has-without same_ref same_ref_iff c.ref c.ref p.want_finalizer,
          same_ref_iff c.ref c.ref,
        ))
  withdraw_service-leaves (some b) e =
      let (plain, needed) = backend_for-ClusterIp b e in
      backend_stays b
        (ground (
          arith,
          find-put ◌==◌ ==_iff c.host_name c.host_name b p.services,
          ==_iff c.host_name c.host_name,
        ))
        plain needed refl

  -- A refused LoadBalancer Service gives up its address in every case: its host Service goes, or
  -- if a synced Ingress or HTTPRoute needs it, a ClusterIP Service takes its place.
  pub withdraw_claim-leaves :
      c.ref.kind ≡ service → LeftBy p (withdraw_claim lib tc host_families p c) c
  unfolding withdraw_claim withdraw_kind
  withdraw_claim-leaves e =
      subst (λ (k : Kind). LeftBy p (withdraw_kind lib tc host_families k p c) c) (sym e)
        (withdraw_service-leaves (backend_for lib tc host_families p c) refl)
