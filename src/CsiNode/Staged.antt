-- ===== src/CsiNode/Staged.antt =====
-- Which disk a node mounts for a volume.
use vcluster_private_cloud_c.CsiNode.{
  Surroundings, Found, device, find_device_by_serial, find_entry, contains, Waited, appeared,
  timed_out, interrupted, wait_for_device, device_wait, attempts, StageRequest, chosen_serial,
  Mounter, MountCall, mkdir, format_and_mount, Outcome, ok, is_mounted, stage_device, on_path,
  node_stage_volume,
}
use vcluster_private_cloud_c.CsiNode.Wait.{Ticks, Ends, IsResult, wait_for_device-Ends}
use vcluster_private_cloud_c.Go.{Library}
use vcluster_private_cloud_c.Meta.{Labels, read, lookup}
use vcluster_private_cloud_c.Pass.Listing.{ApiError}
use vcluster_private_cloud_c.Prelude.{
  ◌+◌, ℕ, ◌≡◌, ◌⊎◌, ◌≤◌, inl, inr, refl, subst, true, ◌||◌, Option, none, some, List, [], ◌∷◌, Text,
  codes, is_empty, All, Any, Bool-cases, Option-cases, if_cases, option_cases, find, arith,
  if◌then◌else◌,
}
use vcluster_private_cloud_c.Storage.{GuestPvc, CsiSource, serial_for, guest_pv_for_claim}

-- The device is what a name of the directory links to that contains the serial.
pub HasSerial : Surroundings → Text → Text → Type 0
HasSerial env serial dev =
    (n : ℕ) × ((names : List Text) × ((env.entries n ≡ some names)
        × Any (λ name. (contains name serial ≡ true) × (env.link n name ≡ device dev)) names))

find_entry-match :
    (serial : Text) (link : Text → Found) (names : List Text) (dev : Text)
    → find_entry serial link names ≡ device dev
    → Any (λ name. (contains name serial ≡ true) × (link name ≡ device dev)) names
unfolding find_entry
find_entry-match serial link [] dev e = absurd (ground (arith, e))
find_entry-match serial link (name ∷ names) dev e = elim (Bool-cases (contains name serial)) [
  | inl c ↦ inl (c, ground (arith, e, c))
  | inr c ↦ inr (find_entry-match serial link names dev (ground (arith, e, c)))
]

find_device_by_serial-HasSerial :
    (env : Surroundings) (serial dev : Text) (n : ℕ)
    → find_device_by_serial env serial n ≡ device dev
    → HasSerial env serial dev
unfolding find_device_by_serial HasSerial
find_device_by_serial-HasSerial env serial dev n e = elim (Option-cases (env.entries n)) [
  | inl q ↦ absurd (ground (arith, e, q))
  | inr (names, q) ↦
      (n, (names, (q, find_entry-match serial (env.link n) names dev (ground (arith, e, q)))))
]

-- What staging may do: make the staging path, and mount there a disk with the serial.
pub Stages : Surroundings → Text → Text → MountCall → Type 0
Stages env serial path c = elim c [
  | mkdir p ↦ p ≡ path
  | format_and_mount dev p fs ↦ (p ≡ path) × ((fs ≡ codes "ext4") × HasSerial env serial dev)
  | _ ↦ ⊥
]

pub Staged : Surroundings → Text → Text → Option Outcome → Type 0
Staged env serial path none = ⊥
Staged env serial path (some out) = All (Stages env serial path) out.1

module _ (lib : Library) (m : Mounter) (env : Surroundings) (ticks : Ticks env) where
  on_path-Staged :
      (o : Option ApiError) (path serial : Text) (c : MountCall) (e : Option ApiError)
      → Stages env serial path c
      → All (Stages env serial path) (on_path o path c e).1
  unfolding on_path Stages
  on_path-Staged none path serial c e h = (refl, (h, tt))
  on_path-Staged (some x) path serial c e h = (refl, tt)

  stage_device-Staged :
      (deadline : ℕ) (serial path : Text) (r : Waited)
      → IsResult env ticks serial deadline r
      → All (Stages env serial path) (stage_device m path r).1
  unfolding stage_device IsResult Stages
  stage_device-Staged deadline serial path (timed_out e) h = tt
  stage_device-Staged deadline serial path interrupted h = tt
  stage_device-Staged deadline serial path (appeared dev) (n, e) =
      if_cases (λ (o : Outcome). All (Stages env serial path) o.1)
        (is_mounted (m.is_likely_not_mount_point path)) (ok, [])
        (on_path (m.mkdir path) path (format_and_mount dev path (codes "ext4"))
          (m.format_and_mount dev path))
        (λ q. tt)
        (λ q.
          on_path-Staged (m.mkdir path) path serial (format_and_mount dev path (codes "ext4"))
            (m.format_and_mount dev path)
            (refl, (refl, find_device_by_serial-HasSerial env serial dev n e)))

  -- If at least a second passes between two attempts to find the disk and the wait begins no later
  -- than its first look at the clock, every request to stage a volume is answered; and all that is
  -- done for it is to make the staging path, and to mount there as ext4 a disk that a name of the
  -- directory links to which contains the serial chosen for the request.
  pub node_stage_volume-Staged :
      (start : ℕ) (req : StageRequest)
      → start ≤ env.clock 0
      → Staged env
          (chosen_serial lib req)
          req.staging_path
          (node_stage_volume lib m env start attempts req)
  unfolding node_stage_volume Staged Ends
  node_stage_volume-Staged start req begins =
      let serial = chosen_serial lib req in
      let P : Option Outcome → Type 0 = Staged env serial req.staging_path in
      if_cases P (is_empty req.volume_id || is_empty req.staging_path) (some (_, [])) _ (λ e. tt)
        (λ e.
          if_cases P req.is_block (some (_, [])) _ (λ q. tt)
            (λ q.
              option_cases P (wait_for_device env start serial attempts) none _
                (λ z. absurd (
                  subst (Ends env ticks serial (start + device_wait)) z
                    (wait_for_device-Ends env ticks serial start begins)))
                (λ r z. stage_device-Staged (start + device_wait) serial req.staging_path r (
                  subst (Ends env ticks serial (start + device_wait)) z
                    (wait_for_device-Ends env ticks serial start begins)))))

-- The attributes of a guest's volume, as they reach the node.
abbrev pub attributes_of : Option CsiSource → Labels
attributes_of none = []
attributes_of (some csi) = csi.attributes

once : (t : Text) → (if is_empty t then t else t) ≡ t
once [] = refl
once (c ∷ t) = refl

twice : (t : Text) → (if is_empty t then (if is_empty t then t else t) else t) ≡ t
twice [] = refl
twice (c ∷ t) = refl

-- The serial that a node looks for is the one with which the disk is plugged into its machine,
-- the one that derives from the volume's handle: when the request carries the attributes of the
-- guest volume that was made for the claim, and either no published metadata or those that are
-- reported with an attached volume.
pub chosen_serial-agrees :
    (lib : Library) (pvc : GuestPvc) (handle class_name : Text) (req : StageRequest)
    → req.volume_id ≡ handle
    → req.volume_context ≡ attributes_of (guest_pv_for_claim lib pvc handle class_name).csi
    → (req.publish_context ≡ []) ⊎ (req.publish_context ≡ ("serial", serial_for lib handle) ∷ [])
    → chosen_serial lib req ≡ serial_for lib handle
unfolding chosen_serial guest_pv_for_claim read lookup find
chosen_serial-agrees lib pvc handle class_name req id recorded published = elim published [
  | inl e ↦ rw (e, recorded, id) (once (serial_for lib handle))
  | inr e ↦ rw (e, recorded, id) (twice (serial_for lib handle))
]
