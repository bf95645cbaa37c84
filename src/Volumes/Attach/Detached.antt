-- ===== src/Volumes/Attach/Detached.antt =====
-- Every step that lets go of an attachment, or unplugs its volume, is justified by it.
use vcluster_private_cloud_c.Go.{Library}
use vcluster_private_cloud_c.Ownership.{guest_finalizer}
use vcluster_private_cloud_c.Pass.Finalizers.{ControllerUtil}
use vcluster_private_cloud_c.Prelude.{
  ◌≡◌, inl, inr, refl, sym, subst, ap, ◌∙◌, true, none, List, Text, ◌==◌, find, Any, Any-imp,
  if_cases, option_cases,
}
use vcluster_private_cloud_c.Storage.{volume_name}
use vcluster_private_cloud_c.Volumes.{
  Call, remove_volume, update_attachment, VolumeAttachment, Work, World, attempt, any_error, noted,
  storage_problem, unplug,
}
use vcluster_private_cloud_c.Volumes.Attach.{release, detach}
use vcluster_private_cloud_c.Volumes.Calls.{attempt_cases}
use vcluster_private_cloud_c.Volumes.Attach.Justified.{
  IsFor, IsFree, Justifies, Just, call-Just, state-Just,
}

module _ (lib : Library) (util : ControllerUtil) (w : World) (vas : List VolumeAttachment)
    (s0 : Work) where
  unfoldable pub I : Work → Type 0
  I = Just lib vas s0

  -- A justified call of which errors are only noted, in one of the two ways.
  pub call_noted :
      (c : Call) (name : Text) (s : Work)
      → Any (Justifies lib s0.storage c) vas
      → I s
      → I (attempt w any_error c (λ t. t) (noted name) s)
  unfolding I
  call_noted c name s q h =
      let there = call-Just lib vas s0 c s q h in
      attempt_cases I w any_error c (λ t. t) (noted name) s there
        (λ e. state-Just lib vas s0 _ _ there)

  pub call_blamed :
      (c : Call) (name : Text) (s : Work)
      → Any (Justifies lib s0.storage c) vas
      → I s
      → I (attempt w any_error c (λ t. t) (storage_problem name) s)
  unfolding I
  call_blamed c name s q h =
      let there = call-Just lib vas s0 c s q h in
      attempt_cases I w any_error c (λ t. t) (storage_problem name) s there
        (λ e. state-Just lib vas s0 _ _ there)

  module _ (va : VolumeAttachment) (listed : Any (λ y. y ≡ va) vas) where
    pub by_va : (P : VolumeAttachment → Type 0) → P va → Any P vas
    by_va P h = Any-imp (λ y e. subst P (sym e) h) vas listed

    pub release-I :
        (s : Work)
        → (va.meta.deleting ≡ true
            → (handle : Text) → IsFor lib s0.storage va handle
            → IsFree lib s0.storage va handle)
        → I s
        → I (release lib util w va s)
    unfolding release Justifies
    release-I s free h =
        let r = util.remove_finalizer va.meta guest_finalizer in
        let new : VolumeAttachment = record va { meta = r.0 } in
        if_cases I r.1 _ s
          (λ e.
            call_noted (update_attachment new) va.meta.name s
              (by_va (Justifies lib s0.storage (update_attachment new)) (refl, (refl, free))) h)
          (λ e. h)

    pub detach-I :
        (handle : Text) (s : Work)
        → va.meta.deleting ≡ true
        → IsFor lib s0.storage va handle
        → ((other : Text) → IsFor lib s0.storage va other → other ≡ handle)
        → I s
        → I (detach lib util w va handle s)
    unfolding detach I Justifies IsFree
    detach-I handle s leaving for same h =
        let st = s0.storage in
        let volume = volume_name lib handle in
        let here : find ◌==◌ va.node_name s.storage.vms ≡ find ◌==◌ va.node_name st.vms =
          ap (λ m. find ◌==◌ va.node_name m) h.vms in
        option_cases I (find ◌==◌ va.node_name s.storage.vms) (release lib util w va s) _
          (λ e. release-I s (λ d other f. inl (sym here ∙ e)) h)
          (λ vols e.
            option_cases I (find ◌==◌ volume vols) (release lib util w va s) _
              (λ q.
                release-I s
                  (λ d other f. inr (
                    vols,
                    (
                      sym here ∙ e,
                      subst (λ x. find ◌==◌ (volume_name lib x) vols ≡ none) (sym (same other f)) q,
                    ),
                  ))
                  h)
              (λ x q.
                if_cases I x.in_spec (unplug w va.node_name volume s) s
                  (λ on.
                    call_blamed (remove_volume va.node_name volume) volume s
                      (by_va (Justifies lib st (remove_volume va.node_name volume))
                        (leaving, (refl, (handle, (for, refl)))))
                      h)
                  (λ off. h)))
