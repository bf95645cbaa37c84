-- ===== src/Pass/Prune/Owned.antt =====
-- Which host objects are deleted.
use vcluster_private_cloud_c.Ownership.{owned_by}
use vcluster_private_cloud_c.Pass.Listing.{Listing, items, no_match, list_failed}
use vcluster_private_cloud_c.Pass.Prune.{
  HostObject, Pruning, Deleter, delete_owned, prune_items, prune_kind, prune_optional, Host,
  prune_all, given,
}
use vcluster_private_cloud_c.Pass.Refs.{Pass}
use vcluster_private_cloud_c.Prelude.{
  if_cases, ◌≡◌, inl, inr, Bool, true, List, [], ◌∷◌, Text, ◌==◌, find, All, All-append, Bool-cases,
  if◌then◌else◌,
}
use vcluster_private_cloud_c.Tenant.{TenantCluster}

module _ (tc : TenantCluster) (answer : Deleter) where
  AllOwned : Pruning → Type 0
  AllOwned s = All (λ o. owned_by o.labels tc ≡ true) s.deleted

  delete_owned-owned :
      (obj : HostObject) (s : Pruning) → AllOwned s → AllOwned (delete_owned tc answer obj s)
  unfolding delete_owned AllOwned
  delete_owned-owned obj s h = elim (Bool-cases (owned_by obj.labels tc)) [
    | inl e ↦ rw e (All-append (λ o. owned_by o.labels tc ≡ true) s.deleted (obj ∷ []) h (e, tt))
    | inr e ↦ rw e h
  ]

  prune_items-owned :
      (desired : Text → Bool) (objs : List HostObject) (s : Pruning)
      → AllOwned s
      → AllOwned (prune_items tc answer desired objs s)
  unfolding prune_items
  prune_items-owned desired [] s h = h
  prune_items-owned desired (obj ∷ objs) s h =
      prune_items-owned desired objs (if desired obj.name then s else delete_owned tc answer obj s)
        (if_cases AllOwned (desired obj.name) s (delete_owned tc answer obj s) (λ e. h)
          (λ e. delete_owned-owned obj s h))

  prune_kind-owned :
      (desired : Text → Bool) (l : Listing HostObject) (s : Pruning)
      → AllOwned s
      → AllOwned (prune_kind tc answer desired l s)
  unfolding prune_kind AllOwned
  prune_kind-owned desired (items objs) s h = prune_items-owned desired objs s h
  prune_kind-owned desired (no_match e) s h = h
  prune_kind-owned desired (list_failed e) s h = h

  prune_optional-owned :
      (desired : Text → Bool) (l : Listing HostObject) (s : Pruning)
      → AllOwned s
      → AllOwned (prune_optional tc answer desired l s)
  unfolding prune_optional AllOwned
  prune_optional-owned desired (items objs) s h = prune_items-owned desired objs s h
  prune_optional-owned desired (no_match e) s h = h
  prune_optional-owned desired (list_failed e) s h = h

  -- Whatever the host's API server lists, a pass that has deleted nothing yet asks only for the
  -- deletion of objects that carry the ownership labels of this TenantCluster.
  pub prune_all-owned :
      (gateway_api : Bool) (host : Host) (p : Pass)
      → All
          (λ o. owned_by o.labels tc ≡ true)
          (prune_all tc answer gateway_api host (record { state = p; deleted = [] })).deleted
  unfolding prune_all AllOwned
  prune_all-owned gateway_api host p =
      let wanted_service : Text → Bool = λ n. given (find ◌==◌ n p.services) in
      let wanted_ingress : Text → Bool = λ n. given (find ◌==◌ n p.ingresses) in
      let wanted_gateway : Text → Bool = λ n. given (find ◌==◌ n p.gateways) in
      let wanted_route : Text → Bool = λ n. given (find ◌==◌ n p.routes) in
      let start : Pruning = record { state = p; deleted = [] } in
      let s1 = prune_kind tc answer wanted_service host.services start in
      let s2 = prune_kind tc answer wanted_ingress host.ingresses s1 in
      let s3 = prune_optional tc answer wanted_gateway host.gateways s2 in
      let h2 =
        prune_kind-owned wanted_ingress host.ingresses s1
          (prune_kind-owned wanted_service host.services start tt) in
      let h4 =
        prune_optional-owned wanted_route host.routes s3
          (prune_optional-owned wanted_gateway host.gateways s2 h2) in
      if_cases AllOwned gateway_api (prune_optional tc answer wanted_route host.routes s3) s2
        (λ e. h4) (λ e. h2)
