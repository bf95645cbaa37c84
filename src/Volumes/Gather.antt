-- ===== src/Volumes/Gather.antt =====
-- internal/syncer/storage_pass.go: what the storage slice reads from the guest and from the host.
pub mod Indexed
use vcluster_private_cloud_c.KubeVirt.{Vms}
use vcluster_private_cloud_c.Go.{Library}
use vcluster_private_cloud_c.Ownership.{guest_finalizer}
use vcluster_private_cloud_c.Pass.Gather.{has_finalizer, note_finalizer_holder, want, hold, ref_of}
use vcluster_private_cloud_c.Pass.Listing.{Listing, items, no_match, list_failed, ApiError}
use vcluster_private_cloud_c.Pass.Prune.{HostObject, blame}
use vcluster_private_cloud_c.Pass.{volume_claim, Ref, Refusal, Pass, Problem, refuse}
use vcluster_private_cloud_c.Prelude.{
  suc, Bool, true, false, not, ◌||◌, Option, none, some, List, [], ◌∷◌, ◌++◌, Text, codes, ◌==◌,
  find, put, is_empty, if◌then◌else◌,
}
use vcluster_private_cloud_c.Storage.{
  driver_name, GuestPvc, GuestPv, MappedPvc, mapped, refused, StorageClass, map_pvc,
}
use vcluster_private_cloud_c.Tenant.{TenantCluster, sync_storage}
use vcluster_private_cloud_c.Volumes.{StorageState, VolumeAttachment}

-- The listings of the guest; of PersistentVolumes and StorageClasses, those labelled as managed.
pub record GuestListings : Type 0 where
  pub pvcs : Listing GuestPvc
  pub pvs : Listing GuestPv
  pub scs : Listing StorageClass
  pub vas : Listing VolumeAttachment

-- The listings of the host: the classes labelled as offered to tenants, the claims labelled as
-- the tenant's, and the machines of its namespace.
pub record HostListings : Type 0 where
  pub classes : Listing StorageClass
  pub claims : Listing HostObject
  pub machines : Option Vms

abbrev pub answered : {A : Type 0} → Listing A → Option (List A)
answered (items xs) = some xs
answered (no_match e) = none
answered (list_failed e) = none

pub index_pvs : List GuestPv → List (Text × GuestPv) → List (Text × GuestPv)
index_pvs [] m = m
index_pvs (pv ∷ pvs) m = index_pvs pvs (put ◌==◌ pv.name pv m)

pub index_classes : List StorageClass → List (Text × StorageClass) → List (Text × StorageClass)
index_classes [] m = m
index_classes (sc ∷ scs) m = index_classes scs (put ◌==◌ sc.name sc m)

pub our_attachments : List VolumeAttachment → List VolumeAttachment
our_attachments [] = []
our_attachments (va ∷ vas) =
    let rest = our_attachments vas in if va.attacher == driver_name then va ∷ rest else rest

-- A pass with its storage state.
abbrev pub Gathering : Type 0
Gathering = Pass × StorageState

unfoldable pub provision_later : Ref → GuestPvc → MappedPvc → Gathering → Gathering
provision_later ref pvc (refused r) (p, st) = (refuse ref (Refusal.of_claim r) p, st)
provision_later ref pvc (mapped host) (p, st) =
    (want ref p, record st { provisionable = st.provisionable ++ pvc ∷ [] })

-- A claim that is not being deleted, by whether its class is offered.
unfoldable pub live_claim :
    Library → TenantCluster → Ref → GuestPvc → Option Text → Gathering → Gathering
live_claim lib tc ref pvc none g = g
live_claim lib tc ref pvc (some class_name) (p, st) = elim (find ◌==◌ class_name st.offerable) [
  | none ↦ (p, st)
  | some sc ↦
      let held = hold ref pvc.meta p in
      let counted = record held {
        counts = record (held.counts) {
          persistent_volume_claims = suc held.counts.persistent_volume_claims;
        };
      } in
      provision_later ref pvc (map_pvc lib tc pvc class_name) (counted, st)
]

-- The body of the loop over the guest's claims.
unfoldable pub gather_claim : Library → TenantCluster → GuestPvc → Gathering → Gathering
unfolding live_claim provision_later
gather_claim lib tc pvc (p, st) =
    let ref = ref_of volume_claim pvc.meta in
    let noted = note_finalizer_holder pvc.meta ref p in
    let seen = record st { pvc_uids = pvc.meta.uid ∷ st.pvc_uids } in
    if pvc.meta.deleting
    then (
      noted,
      (if has_finalizer guest_finalizer pvc.meta.finalizers
          then record seen { deleting = st.deleting ++ pvc ∷ [] }
          else seen),
    )
    else live_claim lib tc ref pvc pvc.storage_class_name (noted, seen)

unfoldable pub gather_claims : Library → TenantCluster → List GuestPvc → Gathering → Gathering
gather_claims lib tc [] g = g
gather_claims lib tc (pvc ∷ pvcs) g = gather_claims lib tc pvcs (gather_claim lib tc pvc g)

-- The pass, and its storage slice unless that is out of work for this pass.
abbrev pub Gathered : Type 0
Gathered = Pass × Option StorageState

unfoldable pub out_of_work : Text → ApiError → Pass → Gathered
out_of_work name e p = (blame (Problem.storage_failed name e) p, none)

unfoldable pub with_claims :
    Library → TenantCluster → List GuestPvc → Pass → StorageState → Gathered
with_claims lib tc pvcs p st =
    let (q, full) = gather_claims lib tc pvcs (p, st) in
    (
      q,
      some (record full {
        plugin_wanted = not (is_empty full.offerable) || not (is_empty full.guest_pvs);
      }),
    )

-- The host's side, once the guest has answered all its listings.
unfoldable pub gather_host :
    Library
    → TenantCluster
    → List GuestPvc
    → List GuestPv
    → List StorageClass
    → List VolumeAttachment
    → HostListings
    → Pass
    → Gathered
unfolding index_classes index_pvs our_attachments with_claims out_of_work
gather_host lib tc pvcs pvs scs vas host p = elim host.classes [
  | items classes ↦ elim host.claims [
    | items claims ↦ elim host.machines [
      | some vms ↦ with_claims lib tc pvcs p (record {
        offerable = index_classes classes [];
        guest_scs = scs;
        guest_pvs = index_pvs pvs [];
        pvc_uids = [];
        provisionable = [];
        deleting = [];
        attachments = our_attachments vas;
        host_pvcs = claims;
        vms = vms;
        va_status = [];
        plugin_wanted = false;
      })
      | none ↦ out_of_work (codes "VirtualMachines") [] p
    ]
    | no_match e ↦ out_of_work (codes "host PVCs") e p
    | list_failed e ↦ out_of_work (codes "host PVCs") e p
  ]
  | no_match e ↦ out_of_work (codes "StorageClasses") e p
  | list_failed e ↦ out_of_work (codes "StorageClasses") e p
]

-- `none` is an error of the guest, which ends the pass. `hot` says whether there is a client for
-- KubeVirt.
unfoldable pub gather_storage :
    Library → TenantCluster → Bool → GuestListings → HostListings → Pass → Option Gathered
unfolding gather_host
gather_storage lib tc hot guest host p =
    if not (sync_storage tc)
    then some (p, none)
    else (if not hot
        then some (
          record p {
            problems = p.problems ++ Problem.storage_failed (codes "no hotplug client") [] ∷ [];
          },
          none,
        )
        else elim (answered guest.pvcs) [
          | none ↦ none
          | some pvcs ↦ elim (answered guest.pvs) [
            | none ↦ none
            | some pvs ↦ elim (answered guest.scs) [
              | none ↦ none
              | some scs ↦ elim (answered guest.vas) [
                | none ↦ none
                | some vas ↦ some (gather_host lib tc pvcs pvs scs vas host p)
              ]
            ]
          ]
        ])
