-- ===== src/Volumes/Teardown.antt =====
-- internal/syncer/storage_pass.go: the ordered teardown of a guest's claims.
mod Tests
pub mod Unplugged
pub mod Pruned
pub mod Traces
pub mod Complete
pub mod Released
use vcluster_private_cloud_c.Go.{Library}
use vcluster_private_cloud_c.KubeVirt.{Volumes, VolumeState, Vms}
use vcluster_private_cloud_c.Meta.{read}
use vcluster_private_cloud_c.Ownership.{label_guest_uid}
use vcluster_private_cloud_c.Pass.Gather.{want, ref_of}
use vcluster_private_cloud_c.Pass.Listing.{ApiError}
use vcluster_private_cloud_c.Pass.Prune.{HostObject}
use vcluster_private_cloud_c.Pass.{volume_claim, Ref, Problem}
use vcluster_private_cloud_c.Prelude.{
  Bool, true, false, ◌||◌, Option, none, some, List, [], ◌∷◌, ◌++◌, map, Text, ◌==◌, find, has,
  if◌then◌else◌,
}
use vcluster_private_cloud_c.Storage.{
  GuestPvc, StorageClass, host_pvc_name, guest_pv_name, volume_name,
}
use vcluster_private_cloud_c.Tenant.{TenantCluster}
use vcluster_private_cloud_c.Volumes.{
  unplug, Work, World, VolumeAttachment, delete_pv, delete_class, attempt, error_of, noted,
  delete_owned_claim,
}
use vcluster_private_cloud_c.Volumes.Orphans.{Sweep, remove_orphan_vm_volumes}

abbrev pub keep : Ref → Work → Work
keep ref s = record s { state = want ref s.state }

-- The entry of a map is the name, or it is not there.
abbrev names : Option Text → Text → Bool
names none pv_name = false
names (some n) pv_name = n == pv_name

-- Does an attachment reference the volume?
unfoldable pub is_attached : Text → List VolumeAttachment → Bool
is_attached pv_name [] = false
is_attached pv_name (va ∷ vas) = names va.pv_name pv_name || is_attached pv_name vas

-- The first listed object of a name.
unfoldable pub named : Text → List HostObject → Option HostObject
named name [] = none
named name (obj ∷ objs) = if obj.name == name then some obj else named name objs

module _ (lib : Library) (tc : TenantCluster) (w : World) where
  pub unplug_if : Text → Text → Option VolumeState → Work → Work
  unplug_if vm volume none s = s
  unplug_if vm volume (some st) s = if st.in_spec then unplug w vm volume s else s

  abbrev pub gone : Option VolumeState → Bool
  gone none = true
  gone (some st) = false

  -- The loop of `volumeUnplugged` over the machines.
  unfoldable pub unplug_all : Text → Vms → Bool × Work → Bool × Work
  unfolding unplug_if
  unplug_all volume [] r = r
  unplug_all volume ((vm, vols) ∷ vms) (clear, s) =
      let st = find ◌==◌ volume vols in
      unplug_all volume vms ((if gone st then clear else false), unplug_if vm volume st s)

  unfoldable pub volume_unplugged : Text → Work → Bool × Work
  volume_unplugged host_name s = unplug_all (volume_name lib host_name) s.storage.vms (true, s)

  -- The guest's volume, and with it the last trace.
  unfoldable pub drop_guest_pv : Ref → Text → Work → Work
  drop_guest_pv ref pv_name s = elim (find ◌==◌ pv_name s.storage.guest_pvs) [
    | none ↦ s
    | some pv ↦
        attempt w error_of (delete_pv pv_name) (λ t. t) (λ e t. keep ref (noted pv_name e t)) s
  ]

  -- The volume is out of every machine.
  unfoldable pub drop_volume : Ref → Text → Text → Work → Work
  unfolding drop_guest_pv
  drop_volume ref host_name pv_name s = elim (named host_name s.storage.host_pvcs) [
    | none ↦ drop_guest_pv ref pv_name s
    | some obj ↦
        let s1 = delete_owned_claim tc w obj s in
        let dropped = drop_guest_pv ref pv_name s1 in
        if s1.state.prune_failed then keep ref s1 else dropped
  ]

  unfoldable pub teardown_guest_pvc : GuestPvc → Work → Work
  unfolding drop_volume volume_unplugged
  teardown_guest_pvc pvc s =
      let ref = ref_of volume_claim pvc.meta in
      let host_name = host_pvc_name lib tc pvc.meta.uid in
      let pv_name = guest_pv_name pvc.meta.uid in
      let (clear, s1) = volume_unplugged host_name s in
      let dropped = drop_volume ref host_name pv_name s1 in
      if is_attached pv_name s.storage.attachments
      then keep ref s
      else (if clear then dropped else keep ref s1)

  unfoldable pub teardown_all : List GuestPvc → Work → Work
  teardown_all [] s = s
  teardown_all (pvc ∷ pvcs) s = teardown_all pvcs (teardown_guest_pvc pvc s)

  -- The body of the loop over the listed host claims.
  unfoldable pub drop_orphan : HostObject → Work → Work
  unfolding volume_unplugged
  drop_orphan obj s =
      let (clear, s1) = volume_unplugged obj.name s in
      if has ◌==◌ (read label_guest_uid obj.labels) s.storage.pvc_uids
      then s
      else (if clear then delete_owned_claim tc w obj s1 else s1)

  unfoldable pub drop_orphans : List HostObject → Work → Work
  drop_orphans [] s = s
  drop_orphans (obj ∷ objs) s = drop_orphans objs (drop_orphan obj s)

  abbrev pub as_problem : Text × ApiError → Problem
  as_problem r = Problem.storage_failed r.0 r.1

  unfoldable pub sweep_orphans : Work → Work
  sweep_orphans s =
      let found =
        remove_orphan_vm_volumes lib w s.storage.vms
          (record { clean = true; calls = s.calls; reports = [] }) in
      record s {
        state = record (s.state) { problems = s.state.problems ++ map as_problem found.reports };
        calls = found.calls;
      }

  -- The guest's classes that the host does not offer any more.
  unfoldable pub drop_classes : List StorageClass → Work → Work
  drop_classes [] s = s
  drop_classes (sc ∷ scs) s = drop_classes scs (elim (find ◌==◌ sc.name s.storage.offerable) [
    | some there ↦ s
    | none ↦ attempt w error_of (delete_class sc.name) (λ t. t) (noted sc.name) s
  ])

  unfoldable pub prune_storage : Work → Work
  unfolding teardown_all drop_orphans sweep_orphans drop_classes
  prune_storage s =
      let s1 = teardown_all s.storage.deleting s in
      let s2 = drop_orphans s1.storage.host_pvcs s1 in
      drop_classes s2.storage.guest_scs (sweep_orphans s2)
