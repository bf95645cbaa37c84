-- ===== src/Volumes/Deletion.antt =====
-- internal/syncer/storage_pass.go: what the deletion of a TenantCluster does with its volumes, on
-- the host and inside the guest.
pub mod Finished
use vcluster_private_cloud_c.Go.{Library}
use vcluster_private_cloud_c.KubeVirt.{VolumeState, Vms}
use vcluster_private_cloud_c.Meta.{Labels, read, ObjectMeta}
use vcluster_private_cloud_c.Ownership.{owned_by, guest_finalizer}
use vcluster_private_cloud_c.Pass.Apply.{Reply, have, absent, error}
use vcluster_private_cloud_c.Pass.Finalizers.{ControllerUtil}
use vcluster_private_cloud_c.Pass.Listing.{Listing, items, no_match, list_failed, ApiError}
use vcluster_private_cloud_c.Pass.Prune.{HostObject}
use vcluster_private_cloud_c.Prelude.{
  Bool, true, false, ◌&&◌, Option, none, some, List, [], ◌∷◌, ◌++◌, Text, ◌==◌, find, is_empty,
  if◌then◌else◌,
}
use vcluster_private_cloud_c.Storage.{
  GuestPv, GuestPvc, StorageClass, volume_name, managed_by_label, managed_by_value,
}
use vcluster_private_cloud_c.Tenant.{TenantCluster}
use vcluster_private_cloud_c.Volumes.{
  World, Call, VolumeAttachment, remove_volume, delete_claim, update_claim, update_attachment,
  delete_class, delete_pv, delete_driver, delete_namespace, error_of,
}
use vcluster_private_cloud_c.Volumes.Gather.{GuestListings}
use vcluster_private_cloud_c.Volumes.Orphans.{Sweep, remove_orphan_vm_volumes}

-- The teardown at work: whether all is done, and the calls issued so far.
pub record Teardown : Type 0 where
  pub done : Bool
  pub calls : List Call

-- The listing of the claims or of the machines fails, or there is no way to see the machines; or
-- the teardown runs to its end.
pub data Result : Type 0 where
  stopped : Result
  ended : Teardown → Result

-- Is the volume in a machine?
unfoldable pub is_carried : Text → Vms → Bool
is_carried volume [] = false
is_carried volume ((vm, vols) ∷ vms) = elim (find ◌==◌ volume vols) [
  | none ↦ is_carried volume vms
  | some st ↦ true
]

-- The RemoveVolume calls for a volume, of which errors are only logged.
unfoldable pub unplug_calls : Text → Vms → List Call
unplug_calls volume [] = []
unplug_calls volume ((vm, vols) ∷ vms) =
    let rest = unplug_calls volume vms in
    elim (find ◌==◌ volume vols) [
      | none ↦ rest
      | some st ↦ if st.in_spec then remove_volume vm volume ∷ rest else rest
    ]

unfoldable pub failed : Option ApiError → Bool
failed none = false
failed (some e) = true

module _ (lib : Library) (tc : TenantCluster) (w : World) (vms : Vms) where
  unfoldable pub delete_host_claim : HostObject → Teardown → Teardown
  unfolding failed
  delete_host_claim obj s = record {
    done = if failed (error_of (w.answer s.calls (delete_claim obj))) then false else s.done;
    calls = s.calls ++ delete_claim obj ∷ [];
  }

  -- The body of the loop over the host claims.
  unfoldable pub teardown_claim : HostObject → Teardown → Teardown
  unfolding delete_host_claim unplug_calls is_carried
  teardown_claim obj s =
      let volume = volume_name lib obj.name in
      if owned_by obj.labels tc
      then (if is_carried volume vms
          then record { done = false; calls = s.calls ++ unplug_calls volume vms }
          else delete_host_claim obj s)
      else s

  unfoldable pub teardown_claims : List HostObject → Teardown → Teardown
  teardown_claims [] s = s
  teardown_claims (obj ∷ objs) s = teardown_claims objs (teardown_claim obj s)

  -- After the claims, the sweep of hotplug volumes whose claim is gone.
  unfoldable pub teardown_swept : List HostObject → Teardown
  unfolding teardown_claims
  teardown_swept objs =
      let s = teardown_claims objs (record { done = true; calls = [] }) in
      let found =
        remove_orphan_vm_volumes lib w vms
          (record { clean = true; calls = s.calls; reports = [] }) in
      record { done = if found.clean then s.done else false; calls = found.calls }

-- `hot` says whether there is a client for KubeVirt, and `machines` what it lists.
unfoldable pub storage_teardown :
    Library → TenantCluster → World → Bool → Listing HostObject → Option Vms → Result
unfolding teardown_swept
storage_teardown lib tc w hot (no_match e) machines = stopped
storage_teardown lib tc w hot (list_failed e) machines = stopped
storage_teardown lib tc w false (items []) machines = ended (record { done = true; calls = [] })
storage_teardown lib tc w false (items (obj ∷ objs)) machines = stopped
storage_teardown lib tc w true (items objs) none = stopped
storage_teardown lib tc w true (items objs) (some vms) = ended (teardown_swept lib tc w vms objs)

abbrev listed : {A : Type 0} → Listing A → List A
listed (items xs) = xs
listed (no_match e) = []
listed (list_failed e) = []

strip_claims : ControllerUtil → List GuestPvc → List Call
strip_claims util [] = []
strip_claims util (pvc ∷ pvcs) =
    let rest = strip_claims util pvcs in
    let (meta, changed) = util.remove_finalizer pvc.meta guest_finalizer in
    if changed then update_claim meta ∷ rest else rest

strip_attachments : ControllerUtil → List VolumeAttachment → List Call
strip_attachments util [] = []
strip_attachments util (va ∷ vas) =
    let rest = strip_attachments util vas in
    let (meta, changed) = util.remove_finalizer va.meta guest_finalizer in
    if changed then update_attachment (record va { meta = meta }) ∷ rest else rest

delete_classes : List StorageClass → List Call
delete_classes [] = []
delete_classes (sc ∷ scs) = delete_class sc.name ∷ delete_classes scs

delete_pvs : List GuestPv → List Call
delete_pvs [] = []
delete_pvs (pv ∷ pvs) = delete_pv pv.name ∷ delete_pvs pvs

delete_found : Reply Text → List Call
delete_found (have name) = delete_driver ∷ []
delete_found absent = []
delete_found (error e) = []

delete_managed : Reply Labels → List Call
delete_managed (have labels) =
    if read managed_by_label labels == managed_by_value then delete_namespace ∷ [] else []
delete_managed absent = []
delete_managed (error e) = []

-- The calls inside the guest, whose errors are ignored; a listing that fails is passed over.
unfoldable pub cleanup_guest_storage :
    ControllerUtil → GuestListings → Reply Text → Reply Labels → List Call
unfolding strip_claims strip_attachments delete_classes delete_pvs delete_found delete_managed
cleanup_guest_storage util guest driver namespace =
    strip_claims util (listed guest.pvcs)
    ++ (strip_attachments util (listed guest.vas)
        ++ (delete_classes (listed guest.scs)
            ++ (delete_pvs (listed guest.pvs)
                ++ (delete_found driver ++ delete_managed namespace))))
