-- ===== src/Pass/Gather/Holders.antt =====
-- Which guest Services a pass sees as holders of our finalizer.
use vcluster_private_cloud_c.Go.{Library}
use vcluster_private_cloud_c.Meta.{ObjectMeta}
use vcluster_private_cloud_c.Ownership.{guest_finalizer}
use vcluster_private_cloud_c.Pass.Gather.{
  note_finalizer_holder, has_finalizer, publish_service, gather_service, gather_each,
  gather_services, index_services, ref_of, hold, count_service,
}
use vcluster_private_cloud_c.Pass.Listing.{items}
use vcluster_private_cloud_c.Pass.Refs.{
  new_pass, same_key, key_of, service, GuestKey, Ref, Pass, refuse,
}
use vcluster_private_cloud_c.Prelude.{
  if_cases, All-self, Any, put, ◌≡◌, refl, subst, true, some, List, [], ◌∷◌, ◌++◌, Text, All,
  All-append, arith, if◌then◌else◌,
}
use vcluster_private_cloud_c.Service.{Service, load_balancer, wants_load_balancer}
use vcluster_private_cloud_c.Service.Mapping.{Mapped, mapped, cannot, map_service}
use vcluster_private_cloud_c.Tenant.{TenantCluster, sync_services}

-- A guest Service of the listing that carries our finalizer and wants an address.
pub record HolderIsLoadBalancer (tc : TenantCluster) (svcs : List Service)
    (holder : ObjectMeta × Ref) : Type 0 where
  pub svc : Service
  pub listed : Any (λ x. x ≡ svc) svcs
  pub ref : ref_of service svc.meta ≡ holder.1
  pub meta : svc.meta ≡ holder.0
  pub wants : wants_load_balancer tc svc ≡ true
  pub carries : has_finalizer guest_finalizer svc.meta.finalizers ≡ true

module _ (svcs : List Service) where
  -- A Service that the guest's API server listed.
  abbrev Listed : GuestKey × Service → Type 0
  Listed x = Any (λ y. y ≡ x.1) svcs

  put-Listed :
      (k : GuestKey) (svc : Service) (m : List (GuestKey × Service))
      → Any (λ y. y ≡ svc) svcs
      → All Listed m
      → All Listed (put same_key k svc m)
  unfolding put
  put-Listed k svc [] l h = (l, tt)
  put-Listed k svc ((j, w) ∷ m) l (q, h) =
      if_cases (All Listed) (same_key j k) ((k, svc) ∷ m) ((j, w) ∷ put same_key k svc m)
        (λ e. (l, h)) (λ e. (q, put-Listed k svc m l h))

  index_services-Listed :
      (ss : List Service) (m : List (GuestKey × Service))
      → All (λ s. Any (λ y. y ≡ s) svcs) ss
      → All Listed m
      → All Listed (index_services ss m)
  unfolding index_services
  index_services-Listed [] m l h = h
  index_services-Listed (s ∷ ss) m (q, l) h =
      index_services-Listed ss (put same_key (key_of s.meta) s m) l
        (put-Listed (key_of s.meta) s m q h)

module _ (lib : Library) (tc : TenantCluster) (host_families : List Text)
    (svcs : List Service) where
  abbrev Holders : Pass → Type 0
  Holders p = All (HolderIsLoadBalancer tc svcs) p.seen_finalizer

  note-Holders :
      (svc : Service) (p : Pass)
      → Any (λ x. x ≡ svc) svcs
      → wants_load_balancer tc svc ≡ true
      → Holders p
      → Holders (note_finalizer_holder svc.meta (ref_of service svc.meta) p)
  unfolding note_finalizer_holder
  note-Holders svc p l w h =
      let ref = ref_of service svc.meta in
      if_cases Holders (has_finalizer guest_finalizer svc.meta.finalizers)
        (record p { seen_finalizer = p.seen_finalizer ++ (svc.meta, ref) ∷ [] }) p
        (λ e.
          All-append (HolderIsLoadBalancer tc svcs) p.seen_finalizer ((svc.meta, ref) ∷ []) h
            (record { svc = svc; listed = l; ref = refl; meta = refl; wants = w; carries = e }, tt))
        (λ e. h)

  publish-Holders :
      (svc : Service) (ref : Ref) (m : Mapped) (p : Pass)
      → Holders p
      → Holders (publish_service svc ref m p)
  unfolding publish_service refuse
  publish-Holders svc ref (cannot r) p h = h
  publish-Holders svc ref (mapped host) p h = h

  gather_service-Holders :
      (svc : Service) (p : Pass)
      → Any (λ x. x ≡ svc) svcs
      → Holders p
      → Holders (gather_service lib tc host_families svc p)
  unfolding gather_service
  gather_service-Holders svc p l h =
      let ref = ref_of service svc.meta in
      let noted = note_finalizer_holder svc.meta ref p in
      let ready = count_service (hold ref svc.meta noted) in
      let m = map_service lib tc svc load_balancer host_families in
      if_cases Holders (wants_load_balancer tc svc)
        (if svc.meta.deleting then noted else publish_service svc ref m ready) p
        (λ w.
          if_cases Holders svc.meta.deleting noted (publish_service svc ref m ready)
            (λ d. note-Holders svc p l w h)
            (λ d. publish-Holders svc ref m ready (note-Holders svc p l w h)))
        (λ w. h)

  gather_each-Holders :
      (indexed : List (GuestKey × Service)) (p : Pass)
      → All (Listed svcs) indexed
      → Holders p
      → Holders (gather_each lib tc host_families indexed p)
  unfolding gather_each
  gather_each-Holders [] p l h = h
  gather_each-Holders ((k, svc) ∷ indexed) p (q, l) h =
      gather_each-Holders indexed (gather_service lib tc host_families svc p) l
        (gather_service-Holders svc p q h)

  some_inj : (a b : Pass) → some a ≡ some b → a ≡ b
  some_inj a b e = ground (arith, e)

  -- At the start of a pass, the guest objects that are noted as holders of our finalizer are listed
  -- Services that carry it and want an address, under their own reference: a listed Service that was
  -- pinned as the backend of an Ingress only is not among them.
  pub gather_services-holders :
      (q : Pass)
      → gather_services lib tc host_families (items svcs) new_pass ≡ some q
      → All (HolderIsLoadBalancer tc svcs) q.seen_finalizer
  unfolding gather_services
  gather_services-holders q e =
      let index = index_services svcs [] in
      let start = record new_pass { guest_svcs = index } in
      subst Holders (some_inj _ q e) (
        if_cases Holders (sync_services tc) (gather_each lib tc host_families index start) start
          (λ s.
            gather_each-Holders index start (index_services-Listed svcs svcs [] (All-self svcs) tt)
              tt)
          (λ s. tt))
