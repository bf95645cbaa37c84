-- ===== src/Volumes/Teardown/Unplugged.antt =====
-- Which host claims the pruning of the storage slice deletes.
use vcluster_private_cloud_c.Go.{Library}
use vcluster_private_cloud_c.KubeVirt.{VolumeState, Vms}
use vcluster_private_cloud_c.Meta.{read}
use vcluster_private_cloud_c.Ownership.{owned_by, label_guest_uid}
use vcluster_private_cloud_c.Pass.Gather.{ref_of}
use vcluster_private_cloud_c.Pass.Listing.{ApiError}
use vcluster_private_cloud_c.Pass.Prune.{HostObject}
use vcluster_private_cloud_c.Pass.{volume_claim, Ref}
use vcluster_private_cloud_c.Prelude.{
  ◌≡◌, inl, inr, refl, sym, subst, Bool, true, false, Option, none, some, List, [], ◌∷◌, Text, ◌==◌,
  ==_iff, find, has, All, Option-cases, if_cases, option_cases, arith, if◌then◌else◌,
}
use vcluster_private_cloud_c.Storage.{
  GuestPvc, StorageClass, host_pvc_name, guest_pv_name, volume_name,
}
use vcluster_private_cloud_c.Tenant.{TenantCluster}
use vcluster_private_cloud_c.Volumes.{
  Call, delete_claim, delete_pv, delete_class, remove_volume, Work, World, any_error, error_of,
  noted, unplug, storage_problem, delete_owned_claim,
}
use vcluster_private_cloud_c.Volumes.Calls.{
  Steady, state-Steady, attempt-Steady, delete_owned_claim-Steady,
}
use vcluster_private_cloud_c.Volumes.Teardown.{
  keep, gone, named, unplug_all, volume_unplugged, drop_guest_pv, unplug_if, is_attached,
  drop_volume, teardown_guest_pvc, teardown_all, drop_orphan, drop_orphans, drop_classes,
}

-- No machine has a volume of that name.
abbrev pub Out : Text → Vms → Type 0
Out volume = All (λ m. find ◌==◌ volume m.1 ≡ none)

-- What holds of each call: a host claim that is deleted is the tenant's, and no machine has its
-- volume.
unfoldable pub IsSafe : Library → TenantCluster → Vms → Call → Type 0
IsSafe lib tc vms c = elim c [
  | delete_claim obj ↦ (owned_by obj.labels tc ≡ true) × Out (volume_name lib obj.name) vms
  | _ ↦ Unit
]

module _ (lib : Library) (tc : TenantCluster) (w : World) (s0 : Work) where
  unfoldable pub Safe : Work → Type 0
  Safe = Steady s0 (IsSafe lib tc s0.storage.vms)

  storage_problem-Safe :
      (name : Text) (e : ApiError) (s : Work) → Safe s → Safe (storage_problem name e s)
  unfolding Safe
  storage_problem-Safe name e s h = state-Steady s0 _ _ s (λ r x. x) h

  noted-Safe : (name : Text) (e : ApiError) (s : Work) → Safe s → Safe (noted name e s)
  unfolding Safe
  noted-Safe name e s h = state-Steady s0 _ _ s (λ r x. x) h

  pub keep-Safe : (ref : Ref) (s : Work) → Safe s → Safe (keep ref s)
  unfolding Safe has
  keep-Safe ref s h = state-Steady s0 _ _ s (λ r x. ground (arith, x)) h

  unplug_if-Safe :
      (vm volume : Text) (o : Option VolumeState) (s : Work)
      → Safe s
      → Safe (unplug_if lib tc w vm volume o s)
  unfolding unplug_if Safe IsSafe
  unplug_if-Safe vm volume none s h = h
  unplug_if-Safe vm volume (some x) s h =
      if_cases Safe x.in_spec (unplug w vm volume s) s
        (λ e.
          attempt-Steady s0 (IsSafe lib tc s0.storage.vms) w any_error (remove_volume vm volume)
            (storage_problem volume) s (λ q t. storage_problem-Safe volume q t) tt h)
        (λ e. h)

  gone_clear :
      (o : Option VolumeState) (clear : Bool)
      → (if gone lib tc w o then clear else false) ≡ true
      → (clear ≡ true) × (o ≡ none)
  gone_clear none clear e = (e, refl)
  gone_clear (some x) clear e = absurd (ground (arith, e))

  -- The loop over the machines keeps the invariant, and its answer is true only if none of them
  -- has the volume.
  unplug_all-Safe :
      (volume : Text) (vms : Vms) (clear : Bool) (s : Work)
      → Safe s
      → Safe (unplug_all lib tc w volume vms (clear, s)).1
        × ((unplug_all lib tc w volume vms (clear, s)).0 ≡ true → (clear ≡ true) × Out volume vms)
  unfolding unplug_all
  unplug_all-Safe volume [] clear s h = (h, λ e. (e, tt))
  unplug_all-Safe volume ((vm, vols) ∷ vms) clear s h =
      let o = find ◌==◌ volume vols in
      let (safe, clean) =
        unplug_all-Safe volume vms (if gone lib tc w o then clear else false)
          (unplug_if lib tc w vm volume o s) (unplug_if-Safe vm volume o s h) in
      (
        safe,
        λ e.
            let (c, rest) = clean e in
            let (now, here) = gone_clear o clear c in (now, (here, rest)),
      )

  pub volume_unplugged-Safe :
      (host_name : Text) (s : Work)
      → Safe s
      → Safe (volume_unplugged lib tc w host_name s).1
        × ((volume_unplugged lib tc w host_name s).0 ≡ true
            → Out (volume_name lib host_name) s0.storage.vms)
  unfolding volume_unplugged Safe
  volume_unplugged-Safe host_name s h =
      let (safe, clean) = unplug_all-Safe (volume_name lib host_name) s.storage.vms true s h in
      (safe, λ e. subst (λ x. Out (volume_name lib host_name) x.vms) h.storage ((clean e).1))

  pub delete-Safe :
      (obj : HostObject) (s : Work)
      → Out (volume_name lib obj.name) s0.storage.vms
      → Safe s
      → Safe (delete_owned_claim tc w obj s)
  unfolding Safe IsSafe
  delete-Safe obj s out h =
      delete_owned_claim-Steady s0 (IsSafe lib tc s0.storage.vms) tc w obj s (λ e. (e, out)) h

  pub drop_guest_pv-Safe :
      (ref : Ref) (pv_name : Text) (s : Work) → Safe s → Safe (drop_guest_pv lib tc w ref pv_name s)
  unfolding drop_guest_pv Safe IsSafe
  drop_guest_pv-Safe ref pv_name s h =
      option_cases Safe (find ◌==◌ pv_name s.storage.guest_pvs) s _ (λ e. h)
        (λ pv e.
          attempt-Steady s0 (IsSafe lib tc s0.storage.vms) w error_of (delete_pv pv_name)
            (λ q t. keep ref (noted pv_name q t)) s
            (λ q t k. keep-Safe ref _ (noted-Safe pv_name q t k)) tt h)

  named-name :
      (name : Text) (objs : List HostObject) (obj : HostObject)
      → named name objs ≡ some obj
      → obj.name ≡ name
  unfolding named
  named-name name [] obj e = absurd (ground (arith, e))
  named-name name (o ∷ objs) obj e = ground (arith, ==_iff o.name name, named-name name objs obj, e)

  drop_volume-Safe :
      (ref : Ref) (host_name pv_name : Text) (s : Work)
      → Out (volume_name lib host_name) s0.storage.vms
      → Safe s
      → Safe (drop_volume lib tc w ref host_name pv_name s)
  unfolding drop_volume
  drop_volume-Safe ref host_name pv_name s out h =
      option_cases Safe (named host_name s.storage.host_pvcs) (drop_guest_pv lib tc w ref pv_name s)
        _ (λ e. drop_guest_pv-Safe ref pv_name s h)
        (λ obj e.
          let s1 = delete_owned_claim tc w obj s in
          let safe =
            delete-Safe obj s
              (subst (λ n. Out (volume_name lib n) s0.storage.vms)
                (sym (named-name host_name s.storage.host_pvcs obj e)) out)
              h in
          if_cases Safe s1.state.prune_failed (keep ref s1) (drop_guest_pv lib tc w ref pv_name s1)
            (λ q. keep-Safe ref s1 safe) (λ q. drop_guest_pv-Safe ref pv_name s1 safe))

  pub teardown_guest_pvc-Safe :
      (pvc : GuestPvc) (s : Work) → Safe s → Safe (teardown_guest_pvc lib tc w pvc s)
  unfolding teardown_guest_pvc
  teardown_guest_pvc-Safe pvc s h =
      let ref = ref_of volume_claim pvc.meta in
      let host_name = host_pvc_name lib tc pvc.meta.uid in
      let pv_name = guest_pv_name pvc.meta.uid in
      let r = volume_unplugged lib tc w host_name s in
      let (safe, clean) = volume_unplugged-Safe host_name s h in
      let dropped = drop_volume lib tc w ref host_name pv_name r.1 in
      if_cases Safe (is_attached pv_name s.storage.attachments) (keep ref s)
        (if r.0 then dropped else keep ref r.1) (λ e. keep-Safe ref s h)
        (λ e.
          if_cases Safe r.0 dropped (keep ref r.1)
            (λ q. drop_volume-Safe ref host_name pv_name r.1 (clean q) safe)
            (λ q. keep-Safe ref r.1 safe))

  pub teardown_all-Safe :
      (pvcs : List GuestPvc) (s : Work) → Safe s → Safe (teardown_all lib tc w pvcs s)
  unfolding teardown_all
  teardown_all-Safe [] s h = h
  teardown_all-Safe (pvc ∷ pvcs) s h = teardown_all-Safe pvcs _ (teardown_guest_pvc-Safe pvc s h)

  drop_orphan-Safe : (obj : HostObject) (s : Work) → Safe s → Safe (drop_orphan lib tc w obj s)
  unfolding drop_orphan
  drop_orphan-Safe obj s h =
      let r = volume_unplugged lib tc w obj.name s in
      let (safe, clean) = volume_unplugged-Safe obj.name s h in
      let dropped = delete_owned_claim tc w obj r.1 in
      if_cases Safe (has ◌==◌ (read label_guest_uid obj.labels) s.storage.pvc_uids) s
        (if r.0 then dropped else r.1) (λ e. h)
        (λ e. if_cases Safe r.0 dropped r.1 (λ q. delete-Safe obj r.1 (clean q) safe) (λ q. safe))

  pub drop_orphans-Safe :
      (objs : List HostObject) (s : Work) → Safe s → Safe (drop_orphans lib tc w objs s)
  unfolding drop_orphans
  drop_orphans-Safe [] s h = h
  drop_orphans-Safe (obj ∷ objs) s h = drop_orphans-Safe objs _ (drop_orphan-Safe obj s h)

  pub drop_classes-Safe :
      (scs : List StorageClass) (s : Work) → Safe s → Safe (drop_classes lib tc w scs s)
  unfolding drop_classes Safe IsSafe
  drop_classes-Safe [] s h = h
  drop_classes-Safe (sc ∷ scs) s h =
      drop_classes-Safe scs _ (elim (Option-cases (find ◌==◌ sc.name s.storage.offerable)) [
        | inl e ↦ rw e (
            attempt-Steady s0 (IsSafe lib tc s0.storage.vms) w error_of (delete_class sc.name)
              (noted sc.name) s (λ q t k. noted-Safe sc.name q t k) tt h)
        | inr (x, e) ↦ rw e h
      ])
