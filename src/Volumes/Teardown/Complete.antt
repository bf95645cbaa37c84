-- ===== src/Volumes/Teardown/Complete.antt =====
-- What is gone when a guest's claim is not kept by its finalizer any more.
use vcluster_private_cloud_c.Go.{Library}
use vcluster_private_cloud_c.Ownership.{owned_by}
use vcluster_private_cloud_c.Pass.Gather.{ref_of}
use vcluster_private_cloud_c.Pass.Prune.{HostObject, delete_owned, after_delete}
use vcluster_private_cloud_c.Pass.{volume_claim, Ref, same_ref, same_ref_iff}
use vcluster_private_cloud_c.Prelude.{
  ◌≡◌, ◌⊎◌, inl, inr, refl, sym, subst, ◌∙◌, true, false, List, [], ◌∷◌, Text, ◌==◌, find, has, All,
  All-imp, Option-cases, if_cases, option_cases, arith, if◌then◌else◌,
}
use vcluster_private_cloud_c.Storage.{GuestPvc, host_pvc_name, guest_pv_name}
use vcluster_private_cloud_c.Tenant.{TenantCluster}
use vcluster_private_cloud_c.Volumes.{
  delete_claim, delete_pv, StorageState, Work, World, error_of, issue, noted, delete_owned_claim,
}
use vcluster_private_cloud_c.Volumes.Calls.{Steady-refl}
use vcluster_private_cloud_c.Volumes.Teardown.{
  keep, named, is_attached, volume_unplugged, drop_guest_pv, drop_volume, teardown_guest_pvc,
  teardown_all, drop_orphans, prune_storage,
}
use vcluster_private_cloud_c.Volumes.Teardown.Traces.{
  Granted, Granted-grow, HostGone, PvGone, Gone, Gone-grow,
}
use vcluster_private_cloud_c.Volumes.Teardown.Pruned.{prune_rest-Safe}
use vcluster_private_cloud_c.Volumes.Teardown.Unplugged.{
  Safe, drop_guest_pv-Safe, volume_unplugged-Safe, teardown_guest_pvc-Safe, teardown_all-Safe,
}

module _ (lib : Library) (tc : TenantCluster) (w : World) where
  unfoldable pub IsKept : Work → GuestPvc → Type 0
  IsKept s pvc = has same_ref (ref_of volume_claim pvc.meta) s.state.want_finalizer ≡ true

  keep-kept : (ref : Ref) (s : Work) → has same_ref ref (keep ref s).state.want_finalizer ≡ true
  unfolding has
  keep-kept ref s = ground (arith, same_ref_iff ref ref)

  drop_guest_pv-PvGone :
      (ref : Ref) (pv_name : Text) (s : Work)
      → (has same_ref ref (drop_guest_pv lib tc w ref pv_name s).state.want_finalizer ≡ true)
        ⊎ PvGone w pv_name s.storage (drop_guest_pv lib tc w ref pv_name s).calls
  unfolding drop_guest_pv PvGone Granted
  drop_guest_pv-PvGone ref pv_name s =
      let c = delete_pv pv_name in
      let P : Work → Type 0 = λ t.
        (has same_ref ref t.state.want_finalizer ≡ true) ⊎ PvGone w pv_name s.storage t.calls in
      option_cases P (find ◌==◌ pv_name s.storage.guest_pvs) s _ (λ e. inr (rw (PvGone, e) tt))
        (λ pv e.
          option_cases P (error_of (w.answer s.calls c)) (issue c s)
            (λ x. keep ref (noted pv_name x (issue c s)))
            (λ q. inr (rw (PvGone, e) (s.calls, ([], (refl, q)))))
            (λ x q. inl (keep-kept ref (noted pv_name x (issue c s)))))

  delete_owned_claim-Granted :
      (obj : HostObject) (s : Work)
      → (delete_owned_claim tc w obj s).state.prune_failed ≡ false
      → owned_by obj.labels tc ≡ true
      → Granted w (delete_claim obj) (delete_owned_claim tc w obj s).calls
  unfolding delete_owned_claim delete_owned after_delete Granted
  delete_owned_claim-Granted obj s clean e =
      elim (Option-cases (error_of (w.answer s.calls (delete_claim obj)))) [
        | inl q ↦ rw e (s.calls, ([], (refl, q)))
        | inr (x, q) ↦
            let lost : (delete_owned_claim tc w obj s).state.prune_failed ≡ true =
              rw (delete_owned_claim, delete_owned, e, q) refl in
            absurd (ground (arith, lost, clean))
      ]

  -- Kept by its finalizer, or gone.
  Outcome : StorageState → Work → GuestPvc → Type 0
  Outcome st s pvc = IsKept s pvc ⊎ Gone lib tc w st s.calls pvc

  Outcome-grow :
      (st : StorageState) (a b : Work) (pvc : GuestPvc)
      → Safe lib tc w a b
      → Outcome st a pvc
      → Outcome st b pvc
  unfolding Outcome IsKept Safe
  Outcome-grow st a b pvc h (inl k) = inl (h.wants (ref_of volume_claim pvc.meta) k)
  Outcome-grow st a b pvc h (inr g) = inr (
      subst (λ l. Gone lib tc w st l pvc) (sym h.log) (Gone-grow lib tc w st pvc a.calls h.added g))

  drop_volume-gone :
      (ref : Ref) (host_name pv_name : Text) (s : Work)
      → (has same_ref ref (drop_volume lib tc w ref host_name pv_name s).state.want_finalizer
          ≡ true)
        ⊎ (HostGone w tc host_name s.storage (drop_volume lib tc w ref host_name pv_name s).calls
            × PvGone w pv_name s.storage (drop_volume lib tc w ref host_name pv_name s).calls)
  unfolding drop_volume HostGone delete_owned_claim Safe
  drop_volume-gone ref host_name pv_name s =
      let st = s.storage in
      let P : Work → Type 0 = λ t.
        (has same_ref ref t.state.want_finalizer ≡ true)
        ⊎ (HostGone w tc host_name st t.calls × PvGone w pv_name st t.calls) in
      option_cases P (named host_name st.host_pvcs) (drop_guest_pv lib tc w ref pv_name s) _
        (λ e. elim (drop_guest_pv-PvGone ref pv_name s) [
          | inl k ↦ inl k
          | inr g ↦ inr (rw (HostGone, e) tt, g)
        ])
        (λ obj e.
          let s1 = delete_owned_claim tc w obj s in
          let dropped = drop_guest_pv lib tc w ref pv_name s1 in
          if_cases P s1.state.prune_failed (keep ref s1) dropped (λ q. inl (keep-kept ref s1))
            (λ q.
              let grown = drop_guest_pv-Safe lib tc w s1 ref pv_name s1 (Steady-refl _ s1) in
              elim (drop_guest_pv-PvGone ref pv_name s1) [
                | inl k ↦ inl k
                | inr g ↦ inr (
                  rw (HostGone, e)
                      (λ owned. subst (Granted w (delete_claim obj)) (sym grown.log) (
                        Granted-grow w (delete_claim obj) s1.calls grown.added
                          (delete_owned_claim-Granted obj s q owned))),
                  g,
                )
              ]))

  teardown_guest_pvc-Outcome :
      (pvc : GuestPvc) (s : Work) → Outcome s.storage (teardown_guest_pvc lib tc w pvc s) pvc
  unfolding teardown_guest_pvc Outcome IsKept Gone Safe
  teardown_guest_pvc-Outcome pvc s =
      let ref = ref_of volume_claim pvc.meta in
      let host_name = host_pvc_name lib tc pvc.meta.uid in
      let pv_name = guest_pv_name pvc.meta.uid in
      let P : Work → Type 0 = λ t. Outcome s.storage t pvc in
      let r = volume_unplugged lib tc w host_name s in
      let (safe, clean) = volume_unplugged-Safe lib tc w s host_name s (Steady-refl _ s) in
      let dropped = drop_volume lib tc w ref host_name pv_name r.1 in
      if_cases P (is_attached pv_name s.storage.attachments) (keep ref s)
        (if r.0 then dropped else keep ref r.1) (λ e. inl (keep-kept ref s))
        (λ free.
          if_cases P r.0 dropped (keep ref r.1)
            (λ q. elim (drop_volume-gone ref host_name pv_name r.1) [
              | inl k ↦ inl k
              | inr (h, g) ↦ inr (
                free,
                (
                  clean q,
                  (
                    subst (λ st. HostGone w tc host_name st dropped.calls) safe.storage h,
                    subst (λ st. PvGone w pv_name st dropped.calls) safe.storage g,
                  ),
                ),
              )
            ])
            (λ q. inl (keep-kept ref r.1)))

  teardown_all-Outcome :
      (pvcs : List GuestPvc) (s0 s : Work)
      → s.storage ≡ s0.storage
      → All (Outcome s0.storage (teardown_all lib tc w pvcs s)) pvcs
  unfolding teardown_all Safe
  teardown_all-Outcome [] s0 s e = tt
  teardown_all-Outcome (pvc ∷ pvcs) s0 s e =
      let t = teardown_guest_pvc lib tc w pvc s in
      let one = teardown_guest_pvc-Safe lib tc w s pvc s (Steady-refl _ s) in
      let rest = teardown_all-Safe lib tc w t pvcs t (Steady-refl _ t) in
      (
        Outcome-grow s0.storage t (teardown_all lib tc w pvcs t) pvc rest
            (subst (λ st. Outcome st t pvc) e (teardown_guest_pvc-Outcome pvc s)),
        teardown_all-Outcome pvcs s0 t (one.storage ∙ e),
      )

  -- After the pruning each guest claim that is being deleted either keeps its finalizer, or every
  -- trace of it is gone: no attachment references its volume, no listed machine has the volume,
  -- and the deletions of the host claim (if one was listed and is the tenant's) and of the guest's
  -- volume (if it was listed) were issued and answered without an error.
  pub prune_storage-Gone :
      (s : Work)
      → All
          (λ pvc.
            IsKept (prune_storage lib tc w s) pvc
            ⊎ Gone lib tc w s.storage (prune_storage lib tc w s).calls pvc)
          s.storage.deleting
  unfolding prune_storage Outcome Safe
  prune_storage-Gone s =
      let s1 = teardown_all lib tc w s.storage.deleting s in
      let s2 = drop_orphans lib tc w s1.storage.host_pvcs s1 in
      let rest =
        prune_rest-Safe lib tc w s1 s1 s2.storage.guest_scs s1.storage.host_pvcs
          (Steady-refl _ s1) in
      All-imp (λ pvc o. Outcome-grow s.storage s1 (prune_storage lib tc w s) pvc rest o)
        s.storage.deleting (teardown_all-Outcome s.storage.deleting s s refl)
