-- ===== src/Pass/Gather/Pinned.antt =====
-- No host Service is desired for a guest object that is not pinned.
use vcluster_private_cloud_c.Go.{Library}
use vcluster_private_cloud_c.Meta.{ObjectMeta}
use vcluster_private_cloud_c.Ownership.{host_object_name, guest_finalizer}
use vcluster_private_cloud_c.Pass.Gather.{
  note_finalizer_holder, has_finalizer, publish_service, gather_service, gather_each,
  gather_services, index_services, place_backend, place_if_absent, add_backend_of, add_backends,
  ref_of, hold, count_service,
}
use vcluster_private_cloud_c.Pass.Listing.{Listing, items, no_match, list_failed}
use vcluster_private_cloud_c.Pass.Refs.{
  service, GuestKey, Ref, same_key, same_ref, same_ref_iff, key_of, Pass, refuse,
}
use vcluster_private_cloud_c.Prelude.{
  if_cases, subst, ◌≡◌, inl, inr, refl, sym, true, Option, none, some, List, [], ◌∷◌, ◌++◌, Text,
  ◌==◌, ==_iff, find, put, find-put, has, arith, Bool-cases, if◌then◌else◌,
}
use vcluster_private_cloud_c.Service.{
  Service, HostService, load_balancer, cluster_ip, wants_load_balancer,
}
use vcluster_private_cloud_c.Service.Hosted.{map_service-IsHostOf}
use vcluster_private_cloud_c.Service.Mapping.{Mapped, mapped, cannot, map_service}
use vcluster_private_cloud_c.Tenant.{TenantCluster, sync_services}

-- The guest Service of a key has a finalizer wanted for it, and gives the host name.
pub record PinnedBy (lib : Library) (tc : TenantCluster) (p : Pass) (name : Text) (key : GuestKey)
    : Type 0 where
  pub named : host_object_name lib tc.name key.namespace key.name ≡ name
  pub wanted : has same_ref (record { kind = service; key = key }) p.want_finalizer ≡ true

-- Each desired host Service has a guest Service that is to be pinned before it is created.
abbrev pub ServicesArePinned : Library → TenantCluster → Pass → Type 0
ServicesArePinned lib tc p =
    (name : Text) (host : HostService)
    → find ◌==◌ name p.services ≡ some host
    → (key : GuestKey) × PinnedBy lib tc p name key

module _ (lib : Library) (tc : TenantCluster) (host_families : List Text) where
  pinned_later :
      (p q : Pass) (ref : Ref) (name : Text) (key : GuestKey)
      → q.want_finalizer ≡ ref ∷ p.want_finalizer
      → PinnedBy lib tc p name key
      → PinnedBy lib tc q name key
  unfolding has
  pinned_later p q ref name key e h = record { named = h.named; wanted = ground (arith, h.wanted) }

  put-pinned :
      (p q : Pass) (key : GuestKey) (name : Text) (host : HostService)
      → host_object_name lib tc.name key.namespace key.name ≡ name
      → q.services ≡ put ◌==◌ name host p.services
      → q.want_finalizer ≡ record { kind = service; key = key } ∷ p.want_finalizer
      → ServicesArePinned lib tc p
      → ServicesArePinned lib tc q
  unfolding has
  put-pinned p q key name host named placed pinned h n there f = elim (Bool-cases (name == n)) [
    | inl same ↦ (
      key,
      record {
        named = ground (arith, ==_iff name n, named);
        wanted = ground (
          arith,
          same_ref_iff (record { kind = service; key = key })
              (record { kind = service; key = key }),
        );
      },
    )
    | inr other ↦
        let (k, by) = h n there (ground (arith, find-put ◌==◌ ==_iff name n host p.services)) in
        (k, pinned_later p q (record { kind = service; key = key }) n k pinned by)
  ]

  pinned_same :
      (p q : Pass)
      → q.services ≡ p.services
      → q.want_finalizer ≡ p.want_finalizer
      → ServicesArePinned lib tc p
      → ServicesArePinned lib tc q
  pinned_same p q same pinned h n there f =
      let (k, by) = h n there (ground (arith, same, f)) in
      (k, record { named = by.named; wanted = ground (arith, by.wanted, pinned) })

  some_inj : (a b : Pass) → some a ≡ some b → a ≡ b
  some_inj a b e = ground (arith, e)

  note-unchanged :
      (obj : ObjectMeta) (ref : Ref) (p : Pass)
      → ServicesArePinned lib tc p
      → ServicesArePinned lib tc (note_finalizer_holder obj ref p)
  unfolding note_finalizer_holder
  note-unchanged obj ref p h =
      if_cases (ServicesArePinned lib tc) (has_finalizer guest_finalizer obj.finalizers)
        (record p { seen_finalizer = p.seen_finalizer ++ (obj, ref) ∷ [] }) p
        (λ e. pinned_same p _ refl refl h) (λ e. h)

  publish-pinned :
      (svc : Service) (m : Mapped) (p : Pass)
      → map_service lib tc svc load_balancer host_families ≡ m
      → ServicesArePinned lib tc p
      → ServicesArePinned lib tc (publish_service svc (ref_of service svc.meta) m p)
  unfolding publish_service refuse
  publish-pinned svc (cannot r) p e h = pinned_same p _ refl refl h
  publish-pinned svc (mapped host) p e h =
      put-pinned p (publish_service svc (ref_of service svc.meta) (mapped host) p) (key_of svc.meta)
        host.name host
        (sym (map_service-IsHostOf lib tc svc host_families load_balancer host e).name) refl refl h

  gather_service-pinned :
      (svc : Service) (p : Pass)
      → ServicesArePinned lib tc p
      → ServicesArePinned lib tc (gather_service lib tc host_families svc p)
  unfolding gather_service
  gather_service-pinned svc p h =
      let ref = ref_of service svc.meta in
      let noted = note_finalizer_holder svc.meta ref p in
      let h' = note-unchanged svc.meta ref p h in
      let ready = count_service (hold ref svc.meta noted) in
      let m = map_service lib tc svc load_balancer host_families in
      if_cases (ServicesArePinned lib tc) (wants_load_balancer tc svc)
        (if svc.meta.deleting then noted else publish_service svc ref m ready) p
        (λ w.
          if_cases (ServicesArePinned lib tc) svc.meta.deleting noted
            (publish_service svc ref m ready) (λ d. h')
            (λ d. publish-pinned svc m ready refl (pinned_same noted ready refl refl h')))
        (λ w. h)

  gather_each-pinned :
      (svcs : List (GuestKey × Service)) (p : Pass)
      → ServicesArePinned lib tc p
      → ServicesArePinned lib tc (gather_each lib tc host_families svcs p)
  unfolding gather_each
  gather_each-pinned [] p h = h
  gather_each-pinned ((k, svc) ∷ svcs) p h =
      gather_each-pinned svcs (gather_service lib tc host_families svc p)
        (gather_service-pinned svc p h)

  -- After the guest Services are gathered, every host Service that is desired has a guest Service
  -- of its name for which a finalizer is wanted, if that was so before.
  pub gather_services-pinned :
      (answer : Listing Service) (p q : Pass)
      → gather_services lib tc host_families answer p ≡ some q
      → ServicesArePinned lib tc p
      → ServicesArePinned lib tc q
  unfolding gather_services
  gather_services-pinned (items svcs) p q e h =
      let indexed = record p { guest_svcs = index_services svcs p.guest_svcs } in
      let done =
        if_cases (ServicesArePinned lib tc) (sync_services tc)
          (gather_each lib tc host_families indexed.guest_svcs indexed) indexed
          (λ s. gather_each-pinned indexed.guest_svcs indexed (pinned_same p indexed refl refl h))
          (λ s. pinned_same p indexed refl refl h) in
      subst (ServicesArePinned lib tc) (some_inj _ q e) done
  gather_services-pinned (no_match err) p q e h = absurd (ground arith)
  gather_services-pinned (list_failed err) p q e h = absurd (ground arith)

  place-pinned :
      (key : GuestKey) (svc : Service) (m : Mapped) (p : Pass)
      → ServicesArePinned lib tc p
      → ServicesArePinned lib tc (
          place_backend
            (host_object_name lib tc.name key.namespace key.name)
            (record { kind = service; key = key })
            svc
            m
            p)
  unfolding place_backend
  place-pinned key svc (cannot r) p h = h
  place-pinned key svc (mapped host) p h =
      let name = host_object_name lib tc.name key.namespace key.name in
      put-pinned p (place_backend name (record { kind = service; key = key }) svc (mapped host) p)
        key name host refl refl refl h

  absent-pinned :
      (key : GuestKey) (svc : Service) (there : Option HostService) (p : Pass)
      → ServicesArePinned lib tc p
      → ServicesArePinned lib tc (
          place_if_absent lib tc host_families
            (host_object_name lib tc.name key.namespace key.name)
            (record { kind = service; key = key })
            svc
            there
            p)
  unfolding place_if_absent
  absent-pinned key svc (some host) p h = h
  absent-pinned key svc none p h =
      place-pinned key svc (map_service lib tc svc cluster_ip host_families) p h

  add_backend-pinned :
      (key : GuestKey) (guest : Option Service) (p : Pass)
      → ServicesArePinned lib tc p
      → ServicesArePinned lib tc (add_backend_of lib tc host_families key guest p)
  unfolding add_backend_of
  add_backend-pinned key none p h = h
  add_backend-pinned key (some svc) p h =
      let name = host_object_name lib tc.name key.namespace key.name in
      let needed = record p { backend_needed = name ∷ p.backend_needed } in
      absent-pinned key svc (find ◌==◌ name p.services) needed (pinned_same p needed refl refl h)

  -- The backends that an Ingress or an HTTPRoute needs are pinned like the LoadBalancers.
  pub add_backends-pinned :
      (namespace : Text) (names : List Text) (p : Pass)
      → ServicesArePinned lib tc p
      → ServicesArePinned lib tc (add_backends lib tc host_families namespace names p)
  unfolding add_backends
  add_backends-pinned namespace [] p h = h
  add_backends-pinned namespace (name ∷ names) p h =
      let key : GuestKey = record { namespace = namespace; name = name } in
      add_backends-pinned namespace names
        (add_backend_of lib tc host_families key (find same_key key p.guest_svcs) p)
        (add_backend-pinned key (find same_key key p.guest_svcs) p h)
