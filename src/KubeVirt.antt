-- ===== src/KubeVirt.antt =====
-- internal/kubevirt/hotplug.go: the volumes that can be plugged into running virtual machines. The
-- parts of KubeVirt's objects that the code reads are given as the lists of values that it finds
-- at the paths it names, empty where there is no list.
mod Values
pub mod Merge
pub mod Plug
mod Tests
unfoldable pub use Values.*
use vcluster_private_cloud_c.Prelude.{
  Bool, true, false, Option, none, some, List, [], ◌∷◌, Text, codes, ◌==◌, ◌++◌, is_empty, find,
  put, if◌then◌else◌,
}
use vcluster_private_cloud_c.Pass.Listing.{Listing, items, no_match, list_failed}

pub record VolumeState : Type 0 where
  pub in_spec : Bool
  pub phase : Text
  pub claim : Text

-- `Ready`, the phase in which the disk is visible in the guest.
abbrev pub ready : Text
ready = codes "Ready"

abbrev pub Volumes : Type 0
Volumes = List (Text × VolumeState)

abbrev pub Vms : Type 0
Vms = List (Text × Volumes)

-- A VirtualMachine: its name, spec.template.spec.volumes and status.volumeRequests.
pub record Vm : Type 0 where
  pub name : Text
  pub volumes : List Json
  pub requests : List Json

-- A VirtualMachineInstance: its name and status.volumeStatus.
pub record Vmi : Type 0 where
  pub name : Text
  pub statuses : List Json

-- `claimOf`
unfoldable pub claim_of : Fields → Text
claim_of m = elim (object_at "persistentVolumeClaim" m) [
  | none ↦ []
  | some pvc ↦ text_at "claimName" pvc
]

-- The zero value of Go for a volume that is not in the map.
abbrev pub state_of : Option VolumeState → VolumeState
state_of none = record { in_spec = false; phase = []; claim = [] }
state_of (some st) = st

-- The body of the loop over the volumes of the specification.
pub add_spec : Json → Volumes → Volumes
add_spec (object m) vols =
    if is_empty (text_at "name" m)
    then vols
    else put ◌==◌ (text_at "name" m) (record { in_spec = true; phase = []; claim = claim_of m })
        vols
add_spec (string t) vols = vols
add_spec (flag b) vols = vols
add_spec other vols = vols

source_claim : Option Fields → Text
source_claim none = []
source_claim (some vs) = claim_of vs

-- The state of a volume with a queued request to add it.
pub queued_state : Fields → VolumeState → VolumeState
queued_state add st = record st {
  in_spec = true;
  claim = if is_empty st.claim then source_claim (object_at "volumeSource" add) else st.claim;
}

pub add_queued : Option Fields → Volumes → Volumes
add_queued none vols = vols
add_queued (some add) vols =
    let name = text_at "name" add in
    if is_empty name
    then vols
    else put ◌==◌ name (queued_state add (state_of (find ◌==◌ name vols))) vols

-- The options of a request that adds a volume.
abbrev pub added_by : Json → Option Fields
added_by (object m) = object_at "addVolumeOptions" m
added_by (string t) = none
added_by (flag b) = none
added_by other = none

-- The body of the loop over the volumes' statuses.
pub add_status : Json → Volumes → Volumes
add_status (object m) vols =
    let name = text_at "name" m in
    if is_empty name
    then vols
    else put ◌==◌ name (record (state_of (find ◌==◌ name vols)) { phase = text_at "phase" m }) vols
add_status (string t) vols = vols
add_status (flag b) vols = vols
add_status other vols = vols

abbrev pub each : (Json → Volumes → Volumes) → List Json → Volumes → Volumes
each step [] vols = vols
each step (v ∷ vs) vols = each step vs (step v vols)

unfoldable pub vm_volumes : Vm → Volumes
unfolding add_spec add_queued queued_state source_claim claim_of
vm_volumes vm = each (λ r. add_queued (added_by r)) vm.requests (each add_spec vm.volumes [])

unfoldable pub vms_of : List Vm → Vms → Vms
unfolding vm_volumes
vms_of [] out = out
vms_of (vm ∷ vms) out = vms_of vms (put ◌==◌ vm.name (vm_volumes vm) out)

pub add_vmi : Vmi → Vms → Vms
add_vmi vmi out = elim (find ◌==◌ vmi.name out) [
  | none ↦ out
  | some vols ↦ put ◌==◌ vmi.name (each add_status vmi.statuses vols) out
]

unfoldable pub vmis_of : List Vmi → Vms → Vms
unfolding add_vmi add_status
vmis_of [] out = out
vmis_of (vmi ∷ vmis) out = vmis_of vmis (add_vmi vmi out)

-- `VMs`: the machines of a namespace with their volumes; `none` if a listing fails.
unfoldable pub vms : Listing Vm → Listing Vmi → Option Vms
vms (items machines) (items instances) = some (vmis_of instances (vms_of machines []))
vms (items machines) (no_match e) = none
vms (items machines) (list_failed e) = none
vms (no_match e) instances = none
vms (list_failed e) instances = none
