-- ===== src/Volumes/Tests.antt =====
-- The storage slice at concrete values.
use vcluster_private_cloud_c.KubeVirt.{Vms}
use vcluster_private_cloud_c.Meta.{lookup, read}
use vcluster_private_cloud_c.Ownership.{ownership_labels, owned_by, guest_finalizer}
use vcluster_private_cloud_c.Pass.Apply.{absent}
use vcluster_private_cloud_c.Pass.Finalizers.{ControllerUtil, Updater, release_guest_finalizers}
use vcluster_private_cloud_c.Pass.Gather.{ref_of}
use vcluster_private_cloud_c.Pass.Listing.{items}
use vcluster_private_cloud_c.Pass.Prune.{HostObject}
use vcluster_private_cloud_c.Pass.{new_pass, volume_claim}
use vcluster_private_cloud_c.Prelude.{
  Text, ◌≡◌, ◌↔◌, refl, true, false, none, some, List, [], ◌∷◌, ◌++◌, codes, All, Any, find, ◌==◌,
}
use vcluster_private_cloud_c.Samples.{lib, tenant, meta_of}
use vcluster_private_cloud_c.Storage.{
  serial_for, GuestPvc, StorageClass, driver_name, guest_pv_for_claim, guest_pv_name, host_pvc_name,
  volume_name,
}
use vcluster_private_cloud_c.Volumes.{
  delete_claim, Call, VolumeAttachment, VaStatusWrite, Work, World, accepted,
}
use vcluster_private_cloud_c.Volumes.Attach.{attach_all}
use vcluster_private_cloud_c.Volumes.Attach.Driven.{attach_all-Justifies, attach_all-Reports}
use vcluster_private_cloud_c.Volumes.Attach.Justified.{Justifies, Reports}
use vcluster_private_cloud_c.Volumes.Deletion.{
  failed, delete_host_claim, is_carried, teardown_claim, teardown_claims, teardown_swept,
  storage_teardown,
}
use vcluster_private_cloud_c.Volumes.Deletion.Finished.{
  IsDone, calls_of, storage_teardown-Finished, storage_teardown-IsSafe,
}
use vcluster_private_cloud_c.Volumes.Gather.{GuestListings, HostListings, gather_storage}
use vcluster_private_cloud_c.Volumes.Gather.Indexed.{SoundIfAny, gather_storage-Sound}
use vcluster_private_cloud_c.Volumes.Orphans.{
  is_ours, sweep_volume, sweep_volumes, remove_orphan_vm_volumes,
}
use vcluster_private_cloud_c.Volumes.Orphans.Removed.{Removes, remove_orphan_vm_volumes-Removes}
use vcluster_private_cloud_c.Volumes.Orphans.Swept.{AllFine, remove_orphan_vm_volumes-clean_iff}
use vcluster_private_cloud_c.Volumes.Provision.{provision_all}
use vcluster_private_cloud_c.Volumes.Provision.Backed.{Provisions, provision_all-Provisions}
use vcluster_private_cloud_c.Volumes.Classes.{existing, apply_guest_storage_classes}
use vcluster_private_cloud_c.Volumes.Classes.Converged.{IsMirror, drop_classes-IsMirror}
use vcluster_private_cloud_c.Volumes.Classes.Mirrored.{Accepts, effects}
use vcluster_private_cloud_c.Volumes.Classes.Offered.{IsKeyed}
use vcluster_private_cloud_c.Volumes.Teardown.{prune_storage, drop_classes}
use vcluster_private_cloud_c.Volumes.Teardown.Pruned.{prune_storage-IsSafe}
use vcluster_private_cloud_c.Volumes.Teardown.Released.{release_guest_finalizers-Gone}
use vcluster_private_cloud_c.Volumes.Teardown.Traces.{Gone, Granted}
use vcluster_private_cloud_c.Volumes.Teardown.Unplugged.{IsSafe, Out}

-- API servers that accept every call, and know no host claim beside the listed ones.
abbrev world : World
world = record { answer = λ log c. accepted; claim_at = λ log name. absent }

abbrev util : ControllerUtil
util = record {
  add_finalizer = λ obj f. (record obj { finalizers = f ∷ [] }, true);
  remove_finalizer = λ obj f. (record obj { finalizers = [] }, true);
}

abbrev accepting : Updater
accepting ref obj = none

abbrev claim : GuestPvc
claim = record {
  meta = meta_of "data" "p-1" 5 (("volume.kubernetes.io/selected-node", codes "worker-0") ∷ []);
  access_modes = codes "ReadWriteOnce" ∷ [];
  volume_mode = none;
  request = some (codes "1Gi");
  storage_class_name = some (codes "fast");
  volume_name = [];
}

abbrev leaving : GuestPvc
leaving = record claim {
  meta = record (meta_of "old" "p-2" 3 []) { deleting = true; finalizers = guest_finalizer ∷ [] };
}

abbrev fast : StorageClass
fast = record {
  name = codes "fast";
  labels = [];
  annotations = [];
  provisioner = codes "host-csi";
  binding_mode = none;
  reclaim_policy = none;
  parameters = [];
}

-- The host claim of the claim that is being deleted.
abbrev old_disk : HostObject
old_disk = record {
  namespace = codes "vms";
  name = host_pvc_name lib tenant (codes "p-2");
  labels = ownership_labels tenant leaving.meta;
  uid = codes "h-2";
}

abbrev attachment : VolumeAttachment
attachment = record {
  meta = meta_of "va" "a-1" 6 [];
  attacher = driver_name;
  pv_name = some (guest_pv_name (codes "p-1"));
  node_name = codes "worker-0";
  attached = false;
  metadata = [];
  attach_error = none;
}

-- One machine, with its system disk and a volume whose claim is gone.
abbrev machines : Vms
machines =
    (
      codes "worker-0",
      (codes "root", record { in_spec = true; phase = []; claim = [] })
          ∷ (
            volume_name lib (codes "lost"),
            record { in_spec = true; phase = []; claim = codes "lost" },
          )
          ∷ [],
    )
    ∷ []

abbrev work : Work
work = record {
  state = new_pass;
  storage = record {
    offerable = (codes "fast", fast) ∷ [];
    guest_scs = [];
    guest_pvs =
        (
          guest_pv_name (codes "p-1"),
          guest_pv_for_claim lib claim (host_pvc_name lib tenant (codes "p-1")) (codes "fast"),
        )
        ∷ [];
    pvc_uids = codes "p-1" ∷ codes "p-2" ∷ [];
    provisionable = claim ∷ [];
    deleting = leaving ∷ [];
    attachments = attachment ∷ [];
    host_pvcs = old_disk ∷ [];
    vms = machines;
    va_status = [];
    plugin_wanted = true;
  };
  calls = [];
}

prune_storage-IsSafe_example :
    (added : List Call) × (((prune_storage lib tenant world work).calls ≡ [] ++ added)
      × All (IsSafe lib tenant machines) added)
prune_storage-IsSafe_example = prune_storage-IsSafe lib tenant world work

release_guest_finalizers-Gone_example :
    All
      (λ pvc.
        All
          (λ x.
            x.0 ≡ ref_of volume_claim pvc.meta
            → Gone lib tenant world work.storage (prune_storage lib tenant world work).calls pvc)
          (release_guest_finalizers util accepting
            (record { state = (prune_storage lib tenant world work).state; updated = [] })).updated)
      (leaving ∷ [])
release_guest_finalizers-Gone_example =
    release_guest_finalizers-Gone lib tenant world util accepting work

attach_all-Justifies_example :
    (added : List Call) × (((attach_all lib util world (attachment ∷ []) work).calls ≡ [] ++ added)
      × All (λ c. Any (Justifies lib work.storage c) (attachment ∷ [])) added)
attach_all-Justifies_example = attach_all-Justifies lib util world work

attach_all-Reports_example :
    (written : List VaStatusWrite) × (((attach_all lib util world
          (attachment ∷ [])
          work).storage.va_status
        ≡ [] ++ written)
      × All (λ x. Any (Reports lib work.storage x) (attachment ∷ [])) written)
attach_all-Reports_example = attach_all-Reports lib util world work

provision_all-Provisions_example :
    (added : List Call) × (((provision_all lib tenant world (claim ∷ []) work).calls ≡ [] ++ added)
      × All (λ c. Any (Provisions lib tenant world (old_disk ∷ []) c) (claim ∷ [])) added)
provision_all-Provisions_example = provision_all-Provisions lib tenant world work

abbrev guest : GuestListings
guest = record {
  pvcs = items (claim ∷ leaving ∷ []);
  pvs = items [];
  scs = items [];
  vas = items (attachment ∷ []);
}

abbrev host : HostListings
host = record {
  classes = items (fast ∷ []);
  claims = items (old_disk ∷ []);
  machines = some machines;
}

gather_storage-Sound_example :
    SoundIfAny lib tenant
      (items (claim ∷ leaving ∷ []))
      (gather_storage lib tenant true guest host new_pass)
gather_storage-Sound_example = gather_storage-Sound lib tenant true guest host new_pass

storage_teardown-IsSafe_example :
    All
      (IsSafe lib tenant machines)
      (calls_of (storage_teardown lib tenant world true (items (old_disk ∷ [])) (some machines)))
storage_teardown-IsSafe_example =
    storage_teardown-IsSafe lib tenant world true (items (old_disk ∷ [])) (some machines)

remove_orphan_vm_volumes-clean_iff_example :
    ((remove_orphan_vm_volumes lib world machines
          (record { clean = true; calls = []; reports = [] })).clean
        ≡ true
      ↔ ((true ≡ true) × AllFine lib world [] machines))
    × (AllFine lib world [] machines
        → (remove_orphan_vm_volumes lib world machines
            (record { clean = true; calls = []; reports = [] })).calls
          ≡ [])
remove_orphan_vm_volumes-clean_iff_example =
    remove_orphan_vm_volumes-clean_iff lib world machines
      (record { clean = true; calls = []; reports = [] })

remove_orphan_vm_volumes-Removes_example :
    All
      (Removes lib world machines)
      (remove_orphan_vm_volumes lib world machines
        (record { clean = true; calls = []; reports = [] })).calls
remove_orphan_vm_volumes-Removes_example = remove_orphan_vm_volumes-Removes lib world machines

-- A machine with its system disk alone.
abbrev calm : Vms
calm =
    (codes "worker-0", (codes "root", record { in_spec = true; phase = []; claim = [] }) ∷ []) ∷ []

finished : IsDone (storage_teardown lib tenant world true (items (old_disk ∷ [])) (some calm))
unfolding storage_teardown teardown_swept teardown_claims teardown_claim owned_by ownership_labels
    read lookup find ◌==◌ is_carried delete_host_claim failed remove_orphan_vm_volumes sweep_volumes
    sweep_volume is_ours volume_name serial_for
finished = refl

storage_teardown-Finished_example :
    All
      (λ obj.
        owned_by obj.labels tenant ≡ true
        → Out (volume_name lib obj.name) calm
          × Granted world (delete_claim obj) (
              calls_of
                (storage_teardown lib tenant world true (items (old_disk ∷ [])) (some calm))))
      (old_disk ∷ [])
    × (true ≡ true
        → AllFine lib world
            (calls_of (storage_teardown lib tenant world true (items (old_disk ∷ [])) (some calm)))
            calm)
storage_teardown-Finished_example =
    storage_teardown-Finished lib tenant world true (old_disk ∷ []) (some calm) finished

accepting_world : Accepts world
unfolding Accepts
accepting_world log c = refl

-- The guest's class of that name has drifted, and another is not offered any more.
abbrev drifted : StorageClass
drifted = record fast { provisioner = codes "other-csi" }

abbrev withdrawn : StorageClass
withdrawn = record fast { name = codes "slow" }

abbrev drifting : Work
drifting = record work { storage = record (work.storage) { guest_scs = drifted ∷ withdrawn ∷ [] } }

keyed : IsKeyed drifting.storage.offerable
unfolding IsKeyed
keyed = (refl, (tt, tt))

drop_classes-IsMirror_example :
    (added : List Call) × (((drop_classes lib tenant world
          (drifted ∷ withdrawn ∷ [])
          (apply_guest_storage_classes world drifting)).calls
        ≡ [] ++ added)
      × ((n : Text)
          → IsMirror
              (find ◌==◌ n drifting.storage.offerable)
              (find ◌==◌ n (effects added (existing (drifted ∷ withdrawn ∷ []) [])))))
drop_classes-IsMirror_example =
    drop_classes-IsMirror lib tenant world accepting_world drifting keyed
