-- ===== src/Volumes/Orphans.antt =====
-- internal/syncer/storage_pass.go: hotplug volumes whose host claim is gone.
pub mod Swept
pub mod Removed
use vcluster_private_cloud_c.Go.{Library}
use vcluster_private_cloud_c.KubeVirt.{VolumeState, Volumes, Vms}
use vcluster_private_cloud_c.Pass.Apply.{Reply, have, absent, error}
use vcluster_private_cloud_c.Pass.Listing.{ApiError}
use vcluster_private_cloud_c.Prelude.{
  ◌&&◌, Bool, true, false, not, ◌||◌, Option, none, some, List, [], ◌∷◌, ◌++◌, Text, ◌==◌, is_empty,
  if◌then◌else◌,
}
use vcluster_private_cloud_c.Storage.{volume_name}
use vcluster_private_cloud_c.Volumes.{World, Call, remove_volume, any_error}

-- The sweep at work: whether no such volume was found, the calls issued so far, and the reports.
pub record Sweep : Type 0 where
  pub clean : Bool
  pub calls : List Call
  pub reports : List (Text × ApiError)

-- Does the volume's name derive from its claim, as of those that this program adds?
unfoldable pub is_ours : Library → Text → VolumeState → Bool
is_ours lib name st = not (is_empty st.claim) && volume_name lib st.claim == name

pub report_if : Text → Option ApiError → Sweep → Sweep
report_if name none s = s
report_if name (some e) s = record s { reports = s.reports ++ (name, e) ∷ [] }

-- The claim of one of our volumes is gone.
unfoldable pub remove_orphan : World → Text → Text → VolumeState → Sweep → Sweep
unfolding report_if
remove_orphan w vm name st s =
    let c = remove_volume vm name in
    if st.in_spec
    then report_if name (any_error (w.answer s.calls c))
        (record s { clean = false; calls = s.calls ++ c ∷ [] })
    else record s { clean = false }

module _ (lib : Library) (w : World) where
  -- The body of the inner loop.
  unfoldable pub sweep_volume : Text → Text × VolumeState → Sweep → Sweep
  unfolding is_ours remove_orphan
  sweep_volume vm (name, st) s =
      if is_ours lib name st
      then elim (w.claim_at s.calls st.claim) [
        | have labels ↦ s
        | error e ↦ record s { clean = false; reports = s.reports ++ (name, e) ∷ [] }
        | absent ↦ remove_orphan w vm name st s
      ]
      else s

  unfoldable pub sweep_volumes : Text → Volumes → Sweep → Sweep
  sweep_volumes vm [] s = s
  sweep_volumes vm (v ∷ vols) s = sweep_volumes vm vols (sweep_volume vm v s)

  -- `removeOrphanVMVolumes`
  unfoldable pub remove_orphan_vm_volumes : Vms → Sweep → Sweep
  remove_orphan_vm_volumes [] s = s
  remove_orphan_vm_volumes ((vm, vols) ∷ vms) s =
      remove_orphan_vm_volumes vms (sweep_volumes vm vols s)
