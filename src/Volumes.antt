-- ===== src/Volumes.antt =====
-- internal/syncer/storage_pass.go: the storage slice of a pass, which provisions, attaches, moves
-- and deletes the volumes of a guest.
pub mod Calls
pub mod Gather
pub mod Provision
pub mod Attach
pub mod Orphans
pub mod Teardown
pub mod Classes
pub mod Install
pub mod Deletion
pub mod Status
mod Tests
use vcluster_private_cloud_c.KubeVirt.{Vms}
use vcluster_private_cloud_c.Meta.{Labels, ObjectMeta}
use vcluster_private_cloud_c.Pass.Apply.{Reply}
use vcluster_private_cloud_c.Pass.Listing.{ApiError}
use vcluster_private_cloud_c.Pass.Prune.{HostObject, blame, delete_owned}
use vcluster_private_cloud_c.Pass.{Pass, Problem}
use vcluster_private_cloud_c.Prelude.{
  Bool, Option, none, some, List, [], ◌∷◌, ◌++◌, map, Text, codes,
}
use vcluster_private_cloud_c.Storage.{GuestPvc, GuestPv, HostPvc, StorageClass}
use vcluster_private_cloud_c.Storage.Plugin.{DaemonSet}
use vcluster_private_cloud_c.Tenant.{TenantCluster}

-- A guest's VolumeAttachment: its metadata, its specification and its status. Of an error in the
-- status, the name of the node that it is about.
pub record VolumeAttachment : Type 0 where
  pub meta : ObjectMeta
  pub attacher : Text
  pub pv_name : Option Text
  pub node_name : Text
  pub attached : Bool
  pub metadata : Labels
  pub attach_error : Option Text

-- `vaStatusWrite`: the status that is desired for an attachment.
pub record VaStatusWrite : Type 0 where
  pub va : VolumeAttachment
  pub attached : Bool
  pub metadata : Labels
  pub err_msg : Option Text

-- `storageState`
pub record StorageState : Type 0 where
  pub offerable : List (Text × StorageClass)
  pub guest_scs : List StorageClass
  pub guest_pvs : List (Text × GuestPv)
  pub pvc_uids : List Text
  pub provisionable : List GuestPvc
  pub deleting : List GuestPvc
  pub attachments : List VolumeAttachment
  pub host_pvcs : List HostObject
  pub vms : Vms
  pub va_status : List VaStatusWrite
  pub plugin_wanted : Bool

-- The calls that change something, at the host's API server, at KubeVirt (with the machine, the
-- volume, its claim and its serial) and at the guest's API server.
pub data Call : Type 0 where
  create_claim : HostPvc → Call
  delete_claim : HostObject → Call
  add_volume : Text → Text → Text → Text → Call
  remove_volume : Text → Text → Call
  create_pv : GuestPv → Call
  delete_pv : Text → Call
  update_attachment : VolumeAttachment → Call
  update_status : VolumeAttachment → Call
  create_class : StorageClass → Call
  delete_class : Text → Call
  create_namespace create_account create_driver : Call
  create_daemon update_daemon : DaemonSet → Call
  update_claim : ObjectMeta → Call
  delete_driver delete_namespace : Call

pub data Answer : Type 0 where
  accepted not_found already_exists : Answer
  rejected : ApiError → Answer

-- What the API servers answer to a call, and to a Get of a host claim that bypasses the cache,
-- after the calls issued before.
pub record World : Type 0 where
  pub answer : List Call → Call → Answer
  pub claim_at : List Call → Text → Reply Labels

-- The storage slice at work: the pass, its storage state and the calls issued so far.
pub record Work : Type 0 where
  pub state : Pass
  pub storage : StorageState
  pub calls : List Call

abbrev pub issue : Call → Work → Work
issue c s = record s { calls = s.calls ++ c ∷ [] }

-- `p.problems = append(p.problems, ...)`
abbrev pub note : Problem → Work → Work
note problem s = record s {
  state = record (s.state) { problems = s.state.problems ++ problem ∷ [] };
}

-- `storageProblem`, which blocks the release of finalizers.
abbrev pub storage_problem : Text → ApiError → Work → Work
storage_problem name e s = record s { state = blame (Problem.storage_failed name e) s.state }

-- `deleteOwned` is told of an error only if the claim is not gone already.
abbrev pub error_of : Answer → Option ApiError
error_of accepted = none
error_of not_found = none
error_of already_exists = some (codes "already exists")
error_of (rejected e) = some e

unfoldable pub delete_owned_claim : TenantCluster → World → HostObject → Work → Work
delete_owned_claim tc w obj s =
    let after =
      delete_owned tc (λ o. error_of (w.answer s.calls (delete_claim o))) obj
        (record { state = s.state; deleted = [] }) in
    record s { state = after.state; calls = s.calls ++ map (λ o. delete_claim o) after.deleted }

-- The error that any call but a successful one returns.
abbrev pub any_error : Answer → Option ApiError
any_error accepted = none
any_error not_found = some (codes "not found")
any_error already_exists = some (codes "already exists")
any_error (rejected e) = some e

-- The error of a creation that may find the object there.
abbrev pub create_error : Answer → Option ApiError
create_error accepted = none
create_error not_found = some (codes "not found")
create_error already_exists = none
create_error (rejected e) = some e

-- A call that goes on in one way without an error, and in another with one.
abbrev pub attempt :
    World
    → (Answer → Option ApiError)
    → Call
    → (Work → Work)
    → (ApiError → Work → Work)
    → Work
    → Work
attempt w error c next failed s = elim (error (w.answer s.calls c)) [
  | none ↦ next (issue c s)
  | some e ↦ failed e (issue c s)
]

-- An error that is noted under a name, and one that blocks the release of finalizers as well.
abbrev pub noted : Text → ApiError → Work → Work
noted name e s = note (Problem.storage_failed name e) s

-- A RemoveVolume call, whose error blocks the release of finalizers.
abbrev pub unplug : World → Text → Text → Work → Work
unplug w vm volume s =
    attempt w any_error (remove_volume vm volume) (λ t. t) (storage_problem volume) s
