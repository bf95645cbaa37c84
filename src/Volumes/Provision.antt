-- ===== src/Volumes/Provision.antt =====
-- internal/syncer/storage_pass.go: the host claim and the guest volume of a guest's claim.
pub mod Backed
use vcluster_private_cloud_c.Go.{Library}
use vcluster_private_cloud_c.Meta.{read}
use vcluster_private_cloud_c.Ownership.{owned_by}
use vcluster_private_cloud_c.Pass.Apply.{Reply, have, absent, error, collide}
use vcluster_private_cloud_c.Pass.Prune.{HostObject}
use vcluster_private_cloud_c.Pass.{volume_claim}
use vcluster_private_cloud_c.Prelude.{
  Bool, true, false, ◌&&◌, ◌||◌, Option, none, some, List, [], ◌∷◌, ◌++◌, Text, ◌==◌, find, put,
  is_empty, if◌then◌else◌,
}
use vcluster_private_cloud_c.Storage.{
  GuestPvc, GuestPv, MappedPvc, mapped, refused, map_pvc, host_pvc_name, guest_pv_name,
  guest_pv_for_claim, selected_node_annotation,
}
use vcluster_private_cloud_c.Tenant.{TenantCluster}
use vcluster_private_cloud_c.Volumes.{
  Work, World, create_claim, create_pv, attempt, any_error, create_error, storage_problem, noted,
}

-- Is a host claim of that name listed?
abbrev pub is_listed : Text → List HostObject → Bool
is_listed name [] = false
is_listed name (obj ∷ objs) = obj.name == name || is_listed name objs

-- The class of a claim that is to be provisioned, which always names one.
abbrev pub class_of : GuestPvc → Text
class_of pvc = elim pvc.storage_class_name [ none ↦ [] | some name ↦ name ]

pub add_guest_pv : GuestPv → Work → Work
add_guest_pv pv s = record s {
  storage = record (s.storage) { guest_pvs = put ◌==◌ pv.name pv s.storage.guest_pvs };
}

module _ (lib : Library) (tc : TenantCluster) (w : World) where
  -- The guest's volume is created once, and then left alone.
  unfoldable pub ensure_pv : GuestPvc → Work → Work
  unfolding add_guest_pv
  ensure_pv pvc s =
      let host_name = host_pvc_name lib tc pvc.meta.uid in
      let pv = guest_pv_for_claim lib pvc host_name (class_of pvc) in
      elim (find ◌==◌ (guest_pv_name pvc.meta.uid) s.storage.guest_pvs) [
        | some there ↦ s
        | none ↦ attempt w create_error (create_pv pv) (add_guest_pv pv) (noted pv.name) s
      ]

  -- A name that is taken on the host by what the label-scoped listing does not show.
  unfoldable pub ensure_host_claim : GuestPvc → Work → Work
  unfolding ensure_pv
  ensure_host_claim pvc s =
      let host_name = host_pvc_name lib tc pvc.meta.uid in
      elim (map_pvc lib tc pvc (class_of pvc)) [
        | refused r ↦ s
        | mapped want ↦ elim (w.claim_at s.calls host_name) [
          | absent ↦
              attempt w any_error (create_claim want) (ensure_pv pvc) (storage_problem host_name) s
          | error e ↦ storage_problem host_name e s
          | have labels ↦
              if owned_by labels tc
              then ensure_pv pvc s
              else record s { state = collide volume_claim host_name s.state }
        ]
      ]

  unfoldable pub provision_pvc : GuestPvc → Work → Work
  unfolding ensure_host_claim
  provision_pvc pvc s =
      if is_listed (host_pvc_name lib tc pvc.meta.uid) s.storage.host_pvcs
      then ensure_pv pvc s
      else (if is_empty (read selected_node_annotation pvc.meta.annotations)
            && is_empty pvc.volume_name
          then s
          else ensure_host_claim pvc s)

  unfoldable pub provision_all : List GuestPvc → Work → Work
  provision_all [] s = s
  provision_all (pvc ∷ pvcs) s = provision_all pvcs (provision_pvc pvc s)
