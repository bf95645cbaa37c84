-- ===== src/Volumes/Attach.antt =====
-- internal/syncer/storage_pass.go: how a guest's attachment is driven towards its truth.
pub mod Justified
pub mod Detached
pub mod Driven
use vcluster_private_cloud_c.Go.{Library}
use vcluster_private_cloud_c.KubeVirt.{Volumes, VolumeState, ready, state_of}
use vcluster_private_cloud_c.Ownership.{guest_finalizer}
use vcluster_private_cloud_c.Pass.Finalizers.{ControllerUtil}
use vcluster_private_cloud_c.Pass.Gather.{has_finalizer}
use vcluster_private_cloud_c.Prelude.{
  Bool, true, false, not, ◌&&◌, Option, none, some, List, [], ◌∷◌, ◌++◌, Text, ◌==◌, find, is_empty,
  if◌then◌else◌,
}
use vcluster_private_cloud_c.Storage.{GuestPv, CsiSource, serial_for, volume_name}
use vcluster_private_cloud_c.Tenant.{TenantCluster}
use vcluster_private_cloud_c.Volumes.{
  unplug, Work, World, VolumeAttachment, VaStatusWrite, update_attachment, add_volume,
  remove_volume, attempt, any_error, storage_problem, noted,
}

-- The volume handle of a listed volume of the guest that is a CSI volume.
csi_of : Option GuestPv → Option CsiSource
csi_of none = none
csi_of (some pv) = pv.csi

abbrev pub handle_of : Option CsiSource → Option Text
handle_of none = none
handle_of (some csi) = some csi.volume_handle

unfoldable pub handle_at : Text → List (Text × GuestPv) → Option Text
unfolding csi_of
handle_at pv_name pvs = handle_of (csi_of (find ◌==◌ pv_name pvs))

abbrev pub desire_status : VaStatusWrite → Work → Work
desire_status write s = record s {
  storage = record (s.storage) { va_status = s.storage.va_status ++ write ∷ [] };
}

module _ (lib : Library) (util : ControllerUtil) (w : World) where
  unfoldable pub release : VolumeAttachment → Work → Work
  release va s =
      let (meta, changed) = util.remove_finalizer va.meta guest_finalizer in
      if changed
      then attempt w any_error (update_attachment (record va { meta = meta })) (λ t. t)
          (noted va.meta.name) s
      else s

  -- The volume cannot be named: an attachment that is being deleted is released.
  unfoldable pub release_zombie : VolumeAttachment → Work → Work
  unfolding release
  release_zombie va s =
      if va.meta.deleting && has_finalizer guest_finalizer va.meta.finalizers
      then release va s
      else s

  -- The attachment is being deleted.
  unfoldable pub detach : VolumeAttachment → Text → Work → Work
  unfolding release
  detach va handle s =
      let volume = volume_name lib handle in
      elim (find ◌==◌ va.node_name s.storage.vms) [
        | none ↦ release va s
        | some vols ↦ elim (find ◌==◌ volume vols) [
          | none ↦ release va s
          | some st ↦ if st.in_spec then unplug w va.node_name volume s else s
        ]
      ]

  -- The disk is reported attached once it is visible in the guest.
  unfoldable pub report_ready : VolumeAttachment → Text → VolumeState → Work → Work
  report_ready va handle st s =
      if st.phase == ready
      then desire_status
          (record {
            va = va;
            attached = true;
            metadata = ("serial", serial_for lib handle) ∷ [];
            err_msg = none;
          })
          s
      else s

  unfoldable pub plug : VolumeAttachment → Text → VolumeState → Work → Work
  unfolding report_ready
  plug va handle st s =
      let volume = volume_name lib handle in
      if not st.in_spec && is_empty st.phase
      then attempt w any_error (add_volume va.node_name volume handle (serial_for lib handle))
          (report_ready va handle st) (storage_problem volume) s
      else report_ready va handle st s

  unfoldable pub attach : VolumeAttachment → Text → Work → Work
  unfolding plug
  attach va handle s = elim (find ◌==◌ va.node_name s.storage.vms) [
    | none ↦
        desire_status
          (record { va = va; attached = false; metadata = []; err_msg = some va.node_name }) s
    | some vols ↦ plug va handle (state_of (find ◌==◌ (volume_name lib handle) vols)) s
  ]

  -- The finalizer first: the attachment must not vanish with a volume plugged in.
  unfoldable pub pin_and_attach : VolumeAttachment → Text → Work → Work
  unfolding attach
  pin_and_attach va handle s =
      let (meta, changed) = util.add_finalizer va.meta guest_finalizer in
      let pinned = record va { meta = meta } in
      if changed
      then attempt w any_error (update_attachment pinned) (attach pinned handle)
          (noted va.meta.name) s
      else attach pinned handle s

  unfoldable pub reconcile_attachment : VolumeAttachment → Work → Work
  unfolding release_zombie detach pin_and_attach
  reconcile_attachment va s = elim va.pv_name [
    | none ↦ s
    | some pv_name ↦ elim (handle_at pv_name s.storage.guest_pvs) [
      | none ↦ release_zombie va s
      | some handle ↦ if va.meta.deleting then detach va handle s else pin_and_attach va handle s
    ]
  ]

  unfoldable pub attach_all : List VolumeAttachment → Work → Work
  attach_all [] s = s
  attach_all (va ∷ vas) s = attach_all vas (reconcile_attachment va s)
