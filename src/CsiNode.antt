-- ===== src/CsiNode.antt =====
-- internal/csinode/node.go: the node half of the storage driver, which finds a hotplugged disk by
-- its serial and mounts it.
pub mod Wait
pub mod Staged
mod Tests
use vcluster_private_cloud_c.Go.{Library}
use vcluster_private_cloud_c.Meta.{Labels, read}
use vcluster_private_cloud_c.Pass.Listing.{ApiError}
use vcluster_private_cloud_c.Prelude.{
  ℕ, zero, suc, ◌+◌, ◌*◌, Bool, true, false, not, ◌&&◌, ◌||◌, Option, none, some, List, [], ◌∷◌,
  ◌++◌, Text, codes, ltb, eqb, is_empty, if◌then◌else◌,
}
use vcluster_private_cloud_c.Storage.{serial_for}

-- strings.HasPrefix and strings.Contains
starts_with : Text → Text → Bool
starts_with s [] = true
starts_with [] (c ∷ p) = false
starts_with (d ∷ s) (c ∷ p) = eqb d c && starts_with s p

unfoldable pub contains : Text → Text → Bool
unfolding starts_with
contains [] p = starts_with [] p
contains (c ∷ s) p = starts_with (c ∷ s) p || contains s p

pub data Found : Type 0 where
  device : Text → Found
  missing : ApiError → Found

-- What a device lookup meets at its n-th attempt, from 0: the names of the directory or an error,
-- what a name links to, the time in nanoseconds, and whether the request is cancelled afterwards.
pub record Surroundings : Type 0 where
  pub entries : ℕ → Option (List Text)
  pub link : ℕ → Text → Found
  pub clock : ℕ → ℕ
  pub cancelled : ℕ → Bool

-- The loop over the directory's names, of which the first that matches counts.
unfoldable pub find_entry : Text → (Text → Found) → List Text → Found
unfolding contains
find_entry serial link [] = missing (codes "no entry matches")
find_entry serial link (name ∷ names) =
    if contains name serial then link name else find_entry serial link names

unfoldable pub find_device_by_serial : Surroundings → Text → ℕ → Found
unfolding find_entry
find_device_by_serial env serial n = elim (env.entries n) [
  | none ↦ missing (codes "reading the directory")
  | some names ↦ find_entry serial (env.link n) names
]

-- time.Second, and `deviceWait`
abbrev pub second : ℕ
second = 1000000000

abbrev pub device_wait : ℕ
device_wait = 30 * second

pub data Waited : Type 0 where
  appeared : Text → Waited
  timed_out : ApiError → Waited
  interrupted : Waited

-- The loop of `waitForDevice` from its n-th attempt; `none` if the fuel is used up.
unfoldable pub wait_from : Surroundings → Text → ℕ → ℕ → ℕ → Option Waited
unfolding find_device_by_serial
wait_from env serial deadline zero n = none
wait_from env serial deadline (suc fuel) n =
    let rest = wait_from env serial deadline fuel (suc n) in
    elim (find_device_by_serial env serial n) [
      | device dev ↦ some (appeared dev)
      | missing e ↦
          if ltb deadline (env.clock n)
          then some (timed_out e)
          else (if env.cancelled n then some interrupted else rest)
    ]

-- One attempt more than there are seconds to wait, and the first.
abbrev pub attempts : ℕ
attempts = 32

-- `start` is the time at which the wait begins.
unfoldable pub wait_for_device : Surroundings → ℕ → Text → ℕ → Option Waited
wait_for_device env start serial fuel = wait_from env serial (start + device_wait) fuel 0

pub record StageRequest : Type 0 where
  pub volume_id : Text
  pub staging_path : Text
  pub is_block : Bool
  pub publish_context : Labels
  pub volume_context : Labels

-- The serial to look for.
unfoldable pub chosen_serial : Library → StageRequest → Text
unfolding read
chosen_serial lib req =
    let published = read "serial" req.publish_context in
    let recorded = read "serial" req.volume_context in
    if is_empty published
    then (if is_empty recorded then serial_for lib req.volume_id else recorded)
    else published

-- The answers of the mounter and of the file system: whether the path is not a mount point, if
-- that can be told, and the errors of the calls that change something.
pub record Mounter : Type 0 where
  pub is_likely_not_mount_point : Text → Option Bool
  pub mkdir : Text → Option ApiError
  pub format_and_mount : Text → Text → Option ApiError
  pub mount : Text → Text → List Text → Option ApiError
  pub cleanup : Text → Option ApiError

-- A call that changes something: the paths, and of a mount its file system or its options.
pub data MountCall : Type 0 where
  mkdir : Text → MountCall
  format_and_mount : Text → Text → Text → MountCall
  mount : Text → Text → List Text → MountCall
  cleanup : Text → MountCall

pub data Code : Type 0 where
  ok invalid_argument missing_disk internal : Code

-- The answer to a request, and the calls made.
abbrev pub Outcome : Type 0
Outcome = Code × List MountCall

abbrev pub is_mounted : Option Bool → Bool
is_mounted none = false
is_mounted (some not_mounted) = not not_mounted

abbrev code_of : Option ApiError → Code
code_of none = ok
code_of (some e) = internal

-- The path is made, and then the calls are made on it.
unfoldable pub on_path : Option ApiError → Text → MountCall → Option ApiError → Outcome
on_path none path c e = (code_of e, mkdir path ∷ c ∷ [])
on_path (some x) path c e = (internal, mkdir path ∷ [])

unfoldable pub stage_device : Mounter → Text → Waited → Outcome
unfolding on_path
stage_device m path (timed_out e) = (missing_disk, [])
stage_device m path interrupted = (missing_disk, [])
stage_device m path (appeared dev) =
    if is_mounted (m.is_likely_not_mount_point path)
    then (ok, [])
    else on_path (m.mkdir path) path (format_and_mount dev path (codes "ext4"))
        (m.format_and_mount dev path)

-- `none` if the fuel of the wait is used up.
unfoldable pub node_stage_volume :
    Library → Mounter → Surroundings → ℕ → ℕ → StageRequest → Option Outcome
unfolding stage_device wait_for_device
node_stage_volume lib m env start fuel req =
    if is_empty req.volume_id || is_empty req.staging_path
    then some (invalid_argument, [])
    else (if req.is_block
        then some (invalid_argument, [])
        else elim (wait_for_device env start (chosen_serial lib req) fuel) [
          | none ↦ none
          | some waited ↦ some (stage_device m req.staging_path waited)
        ])

-- `NodeUnstageVolume` and `NodeUnpublishVolume`, which differ in the path of the request.
unfoldable pub node_unmount : Mounter → Text → Outcome
node_unmount m path =
    if is_empty path then (invalid_argument, []) else (code_of (m.cleanup path), cleanup path ∷ [])

unfoldable pub node_publish_volume : Mounter → Text → Text → Bool → Outcome
unfolding on_path
node_publish_volume m staging target readonly =
    let options = if readonly then codes "bind" ∷ codes "ro" ∷ [] else codes "bind" ∷ [] in
    if is_empty staging || is_empty target
    then (invalid_argument, [])
    else (if is_mounted (m.is_likely_not_mount_point target)
        then (ok, [])
        else on_path (m.mkdir target) target (mount staging target options)
            (m.mount staging target options))
