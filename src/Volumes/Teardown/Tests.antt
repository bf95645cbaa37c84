-- ===== src/Volumes/Teardown/Tests.antt =====
-- One pass that plugs in a volume, and then deletes its host claim.
use vcluster_private_cloud_c.Meta.{read, lookup}
use vcluster_private_cloud_c.Ownership.{ownership_labels, owned_by, guest_finalizer}
use vcluster_private_cloud_c.Pass.Apply.{absent}
use vcluster_private_cloud_c.Pass.Finalizers.{ControllerUtil}
use vcluster_private_cloud_c.Pass.Prune.{HostObject, delete_owned, after_delete}
use vcluster_private_cloud_c.Pass.{new_pass}
use vcluster_private_cloud_c.Prelude.{
  ◌≡◌, refl, true, false, none, some, [], ◌∷◌, codes, find, has, ◌==◌,
}
use vcluster_private_cloud_c.Samples.{lib, tenant, meta_of}
use vcluster_private_cloud_c.Storage.{GuestPv, driver_name, serial_for, volume_name}
use vcluster_private_cloud_c.Volumes.{
  Work, World, VolumeAttachment, accepted, update_attachment, add_volume, delete_claim,
  delete_owned_claim,
}
use vcluster_private_cloud_c.Volumes.Attach.{
  attach_all, reconcile_attachment, handle_at, pin_and_attach, attach, plug, report_ready,
}
use vcluster_private_cloud_c.Volumes.Orphans.{
  remove_orphan_vm_volumes, sweep_volumes, sweep_volume, is_ours,
}
use vcluster_private_cloud_c.Volumes.Teardown.{
  prune_storage, teardown_all, drop_orphans, drop_orphan, sweep_orphans, drop_classes,
  volume_unplugged, unplug_all,
}

abbrev world : World
world = record { answer = λ log c. accepted; claim_at = λ log name. absent }

abbrev util : ControllerUtil
util = record {
  add_finalizer = λ obj f. (record obj { finalizers = f ∷ [] }, true);
  remove_finalizer = λ obj f. (record obj { finalizers = [] }, true);
}

-- The host claim, of which no guest claim is left.
abbrev disk : HostObject
disk = record {
  namespace = codes "vms";
  name = codes "disk";
  labels = ownership_labels tenant (meta_of "data" "p-1" 5 []);
  uid = codes "h-1";
}

-- The guest volume, which is still there.
abbrev volume : GuestPv
volume = record {
  name = codes "pv";
  labels = [];
  annotations = [];
  access_modes = [];
  capacity = none;
  reclaim_policy = codes "Retain";
  storage_class_name = codes "fast";
  claim_ref = none;
  csi = some (record {
    driver = driver_name;
    volume_handle = codes "disk";
    fs_type = codes "ext4";
    attributes = [];
  });
}

-- An attachment of that volume.
abbrev active : VolumeAttachment
active = record {
  meta = meta_of "va" "a-1" 6 [];
  attacher = driver_name;
  pv_name = some (codes "pv");
  node_name = codes "worker-0";
  attached = false;
  metadata = [];
  attach_error = none;
}

abbrev start : Work
start = record {
  state = new_pass;
  storage = record {
    offerable = [];
    guest_scs = [];
    guest_pvs = (codes "pv", volume) ∷ [];
    pvc_uids = [];
    provisionable = [];
    deleting = [];
    attachments = active ∷ [];
    host_pvcs = disk ∷ [];
    vms = (codes "worker-0", []) ∷ [];
    va_status = [];
    plugin_wanted = true;
  };
  calls = [];
}

abbrev pinned : VolumeAttachment
pinned = record active { meta = record (active.meta) { finalizers = guest_finalizer ∷ [] } }

plugged_then_deleted :
    (prune_storage lib tenant world (attach_all lib util world (active ∷ []) start)).calls
    ≡ update_attachment pinned
      ∷ add_volume
          (codes "worker-0")
          (volume_name lib (codes "disk"))
          (codes "disk")
          (serial_for lib (codes "disk"))
      ∷ delete_claim disk
      ∷ []
unfolding attach_all reconcile_attachment handle_at pin_and_attach attach plug report_ready
    prune_storage teardown_all drop_orphans drop_orphan sweep_orphans drop_classes volume_unplugged
    unplug_all delete_owned_claim delete_owned after_delete owned_by ownership_labels read lookup
    find has ◌==◌ remove_orphan_vm_volumes sweep_volumes sweep_volume is_ours
plugged_then_deleted = refl
