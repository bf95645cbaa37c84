-- ===== src/Volumes/Attach/Driven.antt =====
-- Every step that drives an attachment is justified by it.
use vcluster_private_cloud_c.Go.{Library}
use vcluster_private_cloud_c.KubeVirt.{VolumeState, Volumes, ready, state_of}
use vcluster_private_cloud_c.Meta.{ObjectMeta}
use vcluster_private_cloud_c.Ownership.{guest_finalizer}
use vcluster_private_cloud_c.Pass.Finalizers.{ControllerUtil}
use vcluster_private_cloud_c.Pass.Gather.{has_finalizer}
use vcluster_private_cloud_c.Prelude.{
  ◌≡◌, refl, sym, ap, ◌∙◌, Bool, true, false, not, ◌&&◌, none, some, List, [], ◌∷◌, ◌++◌, Text,
  ◌==◌, ==_iff, find, is_empty, All, All-self, Any, if_cases, option_cases, arith,
}
use vcluster_private_cloud_c.Storage.{serial_for, volume_name}
use vcluster_private_cloud_c.Volumes.{
  Call, add_volume, update_attachment, VolumeAttachment, VaStatusWrite, Work, World, any_error,
  issue, noted, storage_problem,
}
use vcluster_private_cloud_c.Volumes.Attach.{
  handle_at, desire_status, release, release_zombie, detach, report_ready, plug, attach,
  pin_and_attach, reconcile_attachment, attach_all,
}
use vcluster_private_cloud_c.Volumes.Calls.{attempt_cases}
use vcluster_private_cloud_c.Volumes.Attach.Justified.{
  IsFor, Justifies, Reports, Just-refl, call-Just, status-Just, state-Just,
}
use vcluster_private_cloud_c.Volumes.Attach.Detached.{I, by_va, release-I, detach-I}

lacking :
    (in_spec : Bool) (phase : Text)
    → (not in_spec && is_empty phase) ≡ true
    → (in_spec ≡ false) × (phase ≡ [])
lacking false [] e = (refl, refl)
lacking false (c ∷ t) e = absurd (ground (arith, e))
lacking true t e = absurd (ground (arith, e))

module _ (lib : Library) (util : ControllerUtil) (w : World) (vas : List VolumeAttachment)
    (s0 : Work) where
  module _ (va : VolumeAttachment) (listed : Any (λ y. y ≡ va) vas) where
    -- The attachment is pinned, with the metadata `meta`.
    module _ (meta : ObjectMeta) (handle : Text) (active : va.meta.deleting ≡ false)
        (for : IsFor lib s0.storage va handle) where
      abbrev pinned : VolumeAttachment
      pinned = record va { meta = meta }

      report_ready-I :
          (vols : Volumes) (x : VolumeState) (s : Work)
          → find ◌==◌ va.node_name s0.storage.vms ≡ some vols
          → state_of (find ◌==◌ (volume_name lib handle) vols) ≡ x
          → (I lib util w vas s0) s
          → (I lib util w vas s0) (report_ready lib util w pinned handle x s)
      unfolding report_ready I Reports
      report_ready-I vols x s there e h =
          let write : VaStatusWrite = record {
            va = pinned;
            attached = true;
            metadata = ("serial", serial_for lib handle) ∷ [];
            err_msg = none;
          } in
          if_cases (I lib util w vas s0) (x.phase == ready) (desire_status write s) s
            (λ on.
              status-Just lib vas s0 write s
                (by_va lib util w vas s0 va listed (Reports lib s0.storage write) (
                  refl,
                  λ a. (
                    handle,
                    (
                      for,
                      (refl, (vols, (there, ap (λ y. y.phase) e ∙ (==_iff x.phase ready).0 on))),
                    ),
                  ),
                ))
                h)
            (λ off. h)

      plug-I :
          (vols : Volumes) (x : VolumeState) (s : Work)
          → find ◌==◌ va.node_name s0.storage.vms ≡ some vols
          → state_of (find ◌==◌ (volume_name lib handle) vols) ≡ x
          → (I lib util w vas s0) s
          → (I lib util w vas s0) (plug lib util w pinned handle x s)
      unfolding plug I Justifies
      plug-I vols x s there e h =
          let volume = volume_name lib handle in
          let c = add_volume va.node_name volume handle (serial_for lib handle) in
          if_cases (I lib util w vas s0) (not x.in_spec && is_empty x.phase) _
            (report_ready lib util w pinned handle x s)
            (λ lacks.
              let (off, idle) = lacking x.in_spec x.phase lacks in
              let next =
                call-Just lib vas s0 c s
                  (by_va lib util w vas s0 va listed (Justifies lib s0.storage c) (
                    active,
                    (
                      refl,
                      (
                        for,
                        (
                          refl,
                          (
                            refl,
                            (
                              vols,
                              (there, (ap (λ y. y.in_spec) e ∙ off, ap (λ y. y.phase) e ∙ idle)),
                            ),
                          ),
                        ),
                      ),
                    ),
                  ))
                  h in
              attempt_cases (I lib util w vas s0) w any_error c
                (report_ready lib util w pinned handle x) (storage_problem volume) s
                (report_ready-I vols x (issue c s) there e next)
                (λ q. state-Just lib vas s0 _ _ next))
            (λ has. report_ready-I vols x s there e h)

      attach-I :
          (s : Work)
          → (I lib util w vas s0) s
          → (I lib util w vas s0) (attach lib util w pinned handle s)
      unfolding attach I Reports
      attach-I s h =
          let write : VaStatusWrite = record {
            va = pinned;
            attached = false;
            metadata = [];
            err_msg = some va.node_name;
          } in
          option_cases (I lib util w vas s0) (find ◌==◌ va.node_name s.storage.vms)
            (desire_status write s) _
            (λ e.
              status-Just lib vas s0 write s
                (by_va lib util w vas s0 va listed (Reports lib s0.storage write)
                  (refl, λ a. absurd (ground (arith, a))))
                h)
            (λ vols e.
              plug-I vols (state_of (find ◌==◌ (volume_name lib handle) vols)) s
                (sym (ap (λ m. find ◌==◌ va.node_name m) h.vms) ∙ e) refl h)

    pin_and_attach-I :
        (handle : Text) (s : Work)
        → va.meta.deleting ≡ false
        → IsFor lib s0.storage va handle
        → (I lib util w vas s0) s
        → (I lib util w vas s0) (pin_and_attach lib util w va handle s)
    unfolding pin_and_attach I Justifies
    pin_and_attach-I handle s active for h =
        let r = util.add_finalizer va.meta guest_finalizer in
        let new : VolumeAttachment = record va { meta = r.0 } in
        let next =
          call-Just lib vas s0 (update_attachment new) s
            (by_va lib util w vas s0 va listed (Justifies lib s0.storage (update_attachment new))
              (refl, (refl, λ d. absurd (ground (arith, d, active)))))
            h in
        if_cases (I lib util w vas s0) r.1 _ (attach lib util w new handle s)
          (λ e.
            attempt_cases (I lib util w vas s0) w any_error (update_attachment new)
              (attach lib util w new handle) (noted va.meta.name) s
              (attach-I r.0 handle active for (issue (update_attachment new) s) next)
              (λ q. state-Just lib vas s0 _ _ next))
          (λ e. attach-I r.0 handle active for s h)

    only_one :
        (pv handle : Text)
        → va.pv_name ≡ some pv
        → handle_at pv s0.storage.guest_pvs ≡ some handle
        → (other : Text) → IsFor lib s0.storage va other
        → other ≡ handle
    unfolding IsFor
    only_one pv handle e q other (pv2, (e2, q2)) = ground (arith, e, q, e2, q2)

    reconcile_attachment-I :
        (s : Work)
        → (I lib util w vas s0) s
        → (I lib util w vas s0) (reconcile_attachment lib util w va s)
    unfolding reconcile_attachment release_zombie I IsFor
    reconcile_attachment-I s h =
        option_cases (I lib util w vas s0) va.pv_name s _ (λ e. h)
          (λ pv e.
            let here : handle_at pv s.storage.guest_pvs ≡ handle_at pv s0.storage.guest_pvs =
              ap (handle_at pv) h.pvs in
            option_cases (I lib util w vas s0) (handle_at pv s.storage.guest_pvs)
              (release_zombie lib util w va s) _
              (λ q.
                if_cases (I lib util w vas s0)
                  (va.meta.deleting && has_finalizer guest_finalizer va.meta.finalizers)
                  (release lib util w va s) s
                  (λ z.
                    release-I lib util w vas s0 va listed s
                      (λ d handle (pv2, (e2, q2)). absurd (ground (arith, e, e2, q, q2, here))) h)
                  (λ z. h))
              (λ handle q.
                let for : IsFor lib s0.storage va handle = (pv, (e, sym here ∙ q)) in
                if_cases (I lib util w vas s0) va.meta.deleting (detach lib util w va handle s)
                  (pin_and_attach lib util w va handle s)
                  (λ d.
                    detach-I lib util w vas s0 va listed handle s d for
                      (only_one pv handle e (sym here ∙ q)) h)
                  (λ d. pin_and_attach-I handle s d for h)))

  attach_all-I :
      (some_of : List VolumeAttachment) (s : Work)
      → All (λ va. Any (λ y. y ≡ va) vas) some_of
      → (I lib util w vas s0) s
      → (I lib util w vas s0) (attach_all lib util w some_of s)
  unfolding attach_all
  attach_all-I [] s m h = h
  attach_all-I (va ∷ rest) s (m, ms) h = attach_all-I rest _ ms (reconcile_attachment-I va m s h)

module _ (lib : Library) (util : ControllerUtil) (w : World) where
  -- Every call issued for the listed attachments is justified by one of them, by what was listed
  -- when the pass began: a volume is plugged into the machine of the node of an attachment that
  -- is not being deleted, under the name and with the serial that derive from the volume's handle,
  -- and only if the machine does not have it; it is unplugged only from the machine of an
  -- attachment that is being deleted; and such an attachment is updated only if its volume is
  -- unknown, or its machine is gone or does not have the volume.
  pub attach_all-Justifies :
      (s : Work)
      → (added : List Call) × (((attach_all lib util w s.storage.attachments s).calls
            ≡ s.calls ++ added)
          × All (λ c. Any (Justifies lib s.storage c) s.storage.attachments) added)
  unfolding I
  attach_all-Justifies s =
      let vas = s.storage.attachments in
      let h = attach_all-I lib util w vas s vas s (All-self vas) (Just-refl lib vas s) in
      (h.added, (h.log, h.calls))

  -- An attachment is reported as attached only if the volume of its handle is in the phase in
  -- which the disk is visible in the guest, on the machine of the attachment's node, and what is
  -- reported with it is the serial that derives from the handle.
  pub attach_all-Reports :
      (s : Work)
      → (written : List VaStatusWrite) × (((attach_all lib util w s.storage.attachments
              s).storage.va_status
            ≡ s.storage.va_status ++ written)
          × All (λ x. Any (Reports lib s.storage x) s.storage.attachments) written)
  unfolding I
  attach_all-Reports s =
      let vas = s.storage.attachments in
      let h = attach_all-I lib util w vas s vas s (All-self vas) (Just-refl lib vas s) in
      (h.written, (h.status, h.reports))
