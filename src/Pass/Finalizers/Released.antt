-- ===== src/Pass/Finalizers/Released.antt =====
-- Which guest objects are pinned, and which are let go.
use vcluster_private_cloud_c.Meta.{ObjectMeta}
use vcluster_private_cloud_c.Ownership.{guest_finalizer}
use vcluster_private_cloud_c.Pass.Finalizers.{
  ControllerUtil, Updater, Updating, update, release_all, release_guest_finalizers,
}
use vcluster_private_cloud_c.Go.{Library}
use vcluster_private_cloud_c.Pass.Gather.Pinned.{PinnedBy, ServicesArePinned}
use vcluster_private_cloud_c.Pass.Refs.{service, GuestKey, Ref, Pass, same_ref}
use vcluster_private_cloud_c.Service.{HostService}
use vcluster_private_cloud_c.Tenant.{TenantCluster}
use vcluster_private_cloud_c.Prelude.{
  if_cases, All-imp, ◌≡◌, ◌≢◌, ◌∙◌, sym, ap, true, some, arith, Text, find, ◌==◌, inl, inr, refl,
  Bool, false, List, [], ◌∷◌, has, All, Any, All-append,
}

-- A guest object that was seen with our finalizer, and for which no finalizer is wanted.
unfoldable pub Unwanted : Pass → Ref → Type 0
Unwanted p ref = (has same_ref ref p.want_finalizer ≡ false) × Any (λ x. x.1 ≡ ref) p.seen_finalizer

true-false : true ≢ false
true-false e = ground arith

-- A guest object that may be let go.
pub record IsReleased (lib : Library) (tc : TenantCluster) (p : Pass) (ref : Ref) : Type 0 where
  pub seen : Any (λ x. x.1 ≡ ref) p.seen_finalizer
  pub unwanted : has same_ref ref p.want_finalizer ≡ false
  pub clean : p.prune_failed ≡ false
  pub others :
      (name : Text) (host : HostService)
      → find ◌==◌ name p.services ≡ some host
      → (key : GuestKey) × (PinnedBy lib tc p name key
          × (record { kind = service; key = key } ≢ ref))

apart :
    (p : Pass) (key : GuestKey) (ref : Ref)
    → has same_ref (record { kind = service; key = key }) p.want_finalizer ≡ true
    → has same_ref ref p.want_finalizer ≡ false
    → record { kind = service; key = key } ≢ ref
apart p key ref wanted unwanted same =
    true-false (sym wanted ∙ (ap (λ r. has same_ref r p.want_finalizer) same ∙ unwanted))

module _ (util : ControllerUtil) (answer : Updater) where
  update-All :
      (P : Ref → Type 0) (ref : Ref) (outcome : ObjectMeta × Bool) (s : Updating)
      → P ref
      → All (λ x. P x.0) s.updated
      → All (λ x. P x.0) (update answer ref outcome s).updated
  unfolding update
  update-All P ref outcome s q h =
      if_cases (λ t. All (λ x. P x.0) t.updated) outcome.1 _ s
        (λ e. All-append (λ x. P x.0) s.updated ((ref, outcome.0) ∷ []) h (q, tt)) (λ e. h)

  release_all-unwanted :
      (P : Ref → Type 0) (wanted : List Ref) (holders : List (ObjectMeta × Ref)) (s : Updating)
      → All (λ x. has same_ref x.1 wanted ≡ false → P x.1) holders
      → All (λ x. P x.0) s.updated
      → All (λ x. P x.0) (release_all util answer wanted holders s).updated
  unfolding release_all
  release_all-unwanted P wanted [] s k h = h
  release_all-unwanted P wanted ((obj, ref) ∷ holders) s (k, ks) h =
      release_all-unwanted P wanted holders _ ks (
        if_cases (λ t. All (λ x. P x.0) t.updated) (has same_ref ref wanted) s
          (update answer ref (util.remove_finalizer obj guest_finalizer) s) (λ e. h)
          (λ e. update-All P ref (util.remove_finalizer obj guest_finalizer) s (k e) h))

  members : (holders : List (ObjectMeta × Ref)) → All (λ x. Any (λ y. y.1 ≡ x.1) holders) holders
  members [] = tt
  members (x ∷ xs) = (inl refl, All-imp (λ y m. inr m) xs (members xs))

  -- A guest object is let go only if no finalizer is wanted for it, if it was seen with ours, and
  -- if the pruning of the pass has not failed.
  pub release_guest_finalizers-Unwanted :
      (p : Pass)
      → All
          (λ x. Unwanted p x.0 × (p.prune_failed ≡ false))
          (release_guest_finalizers util answer (record { state = p; updated = [] })).updated
  unfolding release_guest_finalizers Unwanted
  release_guest_finalizers-Unwanted p =
      let start : Updating = record { state = p; updated = [] } in
      if_cases (λ t. All (λ x. Unwanted p x.0 × (p.prune_failed ≡ false)) t.updated) p.prune_failed
        start (release_all util answer p.want_finalizer p.seen_finalizer start) (λ e. tt)
        (λ clean.
          release_all-unwanted (λ ref. Unwanted p ref × (p.prune_failed ≡ false)) p.want_finalizer
            p.seen_finalizer start
            (All-imp (λ x m e. ((e, m), clean)) p.seen_finalizer (members p.seen_finalizer)) tt)

  -- In a pass whose desired host Services are pinned, as the gathering leaves them, a guest object
  -- is let go only if it was seen with our finalizer, if none is wanted for it, and if the pruning
  -- has not failed; and each host Service that is desired keeps a pinned guest Service of its name
  -- that is another object than the one let go.
  pub release_guest_finalizers-IsReleased :
      (lib : Library) (tc : TenantCluster) (p : Pass)
      → ServicesArePinned lib tc p
      → All
          (λ x. IsReleased lib tc p x.0)
          (release_guest_finalizers util answer (record { state = p; updated = [] })).updated
  unfolding Unwanted
  release_guest_finalizers-IsReleased lib tc p pinned =
      All-imp
        (λ x ((unwanted, seen), clean). record {
          seen = seen;
          unwanted = unwanted;
          clean = clean;
          others = λ name host f.
              let (key, by) = pinned name host f in (key, (by, apart p key x.0 by.wanted unwanted));
        })
        _ (release_guest_finalizers-Unwanted p)
