-- ===== src/Pass/Finalizers.antt =====
-- internal/syncer/writeback.go: the finalizers of the guest objects that have host state.
pub mod Released
mod Tests
use vcluster_private_cloud_c.Meta.{ObjectMeta}
use vcluster_private_cloud_c.Ownership.{guest_finalizer}
use vcluster_private_cloud_c.Pass.Refs.{Pass, Problem, Ref, same_ref}
use vcluster_private_cloud_c.Pass.Listing.{ApiError}
use vcluster_private_cloud_c.Prelude.{
  Bool, true, false, Option, none, some, List, [], ◌∷◌, ◌++◌, Text, find, has, if◌then◌else◌,
}

-- `controllerutil.AddFinalizer` and `RemoveFinalizer`: the object afterwards, and whether it
-- was changed.
pub record ControllerUtil : Type 0 where
  pub add_finalizer : ObjectMeta → Text → ObjectMeta × Bool
  pub remove_finalizer : ObjectMeta → Text → ObjectMeta × Bool

-- What the guest's API server answers to an Update call.
abbrev pub Updater : Type 0
Updater = Ref → ObjectMeta → Option ApiError

-- A pass with the Update calls issued to the guest so far.
pub record Updating : Type 0 where
  pub state : Pass
  pub updated : List (Ref × ObjectMeta)

after_update : Ref → Option ApiError → Pass → Pass
after_update ref none p = p
after_update ref (some e) p = record p {
  problems = p.problems ++ Problem.finalizer_failed ref e ∷ [];
}

unfoldable pub update : Updater → Ref → ObjectMeta × Bool → Updating → Updating
unfolding after_update
update answer ref (obj, changed) s =
    if changed
    then record {
      state = after_update ref (answer ref obj) s.state;
      updated = s.updated ++ (ref, obj) ∷ [];
    }
    else s

pin : ControllerUtil → Updater → Ref → Option ObjectMeta → Updating → Updating
pin util answer ref none s = s
pin util answer ref (some obj) s =
    if obj.deleting then s else update answer ref (util.add_finalizer obj guest_finalizer) s

unfoldable pub pin_all : ControllerUtil → Updater → Pass → List Ref → Updating → Updating
unfolding pin
pin_all util answer p [] s = s
pin_all util answer p (ref ∷ refs) s =
    pin_all util answer p refs (pin util answer ref (find same_ref ref p.guest_objs) s)

unfoldable pub ensure_guest_finalizers : ControllerUtil → Updater → Updating → Updating
ensure_guest_finalizers util answer s = pin_all util answer s.state s.state.want_finalizer s

unfoldable pub release_all :
    ControllerUtil → Updater → List Ref → List (ObjectMeta × Ref) → Updating → Updating
release_all util answer wanted [] s = s
release_all util answer wanted ((obj, ref) ∷ holders) s = release_all util answer wanted holders (
    if has same_ref ref wanted
    then s
    else update answer ref (util.remove_finalizer obj guest_finalizer) s)

unfoldable pub release_guest_finalizers : ControllerUtil → Updater → Updating → Updating
release_guest_finalizers util answer s =
    if s.state.prune_failed
    then s
    else release_all util answer s.state.want_finalizer s.state.seen_finalizer s
