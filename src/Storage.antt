-- ===== src/Storage.antt =====
-- internal/syncer/storage.go: the host PersistentVolumeClaims, guest PersistentVolumes and guest
-- StorageClasses that a guest's claims are mapped to, and the names and serials that tie them to
-- the disks of virtual machines. With it `SerialFor` of internal/csinode/node.go.
pub mod Plugin
use vcluster_private_cloud_c.Go.{Library}
use vcluster_private_cloud_c.Meta.{Labels, lookup, ObjectMeta}
use vcluster_private_cloud_c.Ownership.{ownership_labels, sanitize_name}
use vcluster_private_cloud_c.Prelude.{
  Bool, true, false, Option, none, some, List, [], ◌∷◌, ◌++◌, String, Text, codes, ◌==◌, take,
  if◌then◌else◌,
}
use vcluster_private_cloud_c.Tenant.{TenantCluster}

abbrev pub managed_by_label : String
managed_by_label = "app.kubernetes.io/managed-by"

-- FieldManager
abbrev pub managed_by_value : Text
managed_by_value = codes "vcluster-tenant-syncer"

abbrev pub managed_labels : Labels
managed_labels = (managed_by_label, managed_by_value) ∷ []

-- csinode.DriverName
abbrev pub driver_name : Text
driver_name = codes "csi.vcluster.the-it-dept.io"

abbrev pub selected_node_annotation : String
selected_node_annotation = "volume.kubernetes.io/selected-node"

abbrev pub provisioned_by_annotation : String
provisioned_by_annotation = "pv.kubernetes.io/provisioned-by"

abbrev pub default_class_annotation : String
default_class_annotation = "storageclass.kubernetes.io/is-default-class"

abbrev pub read_write_once : Text
read_write_once = codes "ReadWriteOnce"

-- `SerialFor`: the first 20 hexadecimal digits of the digest.
unfoldable pub serial_for : Library → Text → Text
serial_for lib volume_handle = take 20 (lib.sha256_hex volume_handle)

unfoldable pub host_pvc_name : Library → TenantCluster → Text → Text
host_pvc_name lib tc guest_uid = sanitize_name lib.unicode (tc.name ++ (codes "-pvc-" ++ guest_uid))

unfoldable pub volume_name : Library → Text → Text
unfolding serial_for
volume_name lib host_name = codes "csi-" ++ serial_for lib host_name

abbrev pub guest_pv_name : Text → Text
guest_pv_name guest_uid = codes "pvc-" ++ guest_uid

-- The fields of a StorageClass that the program reads or sets.
pub record StorageClass : Type 0 where
  pub name : Text
  pub labels : Labels
  pub annotations : Labels
  pub provisioner : Text
  pub binding_mode : Option Text
  pub reclaim_policy : Option Text
  pub parameters : Labels

carried_default : Option Text → Labels
carried_default none = []
carried_default (some v) = (default_class_annotation, v) ∷ []

unfoldable pub mirror_storage_class : StorageClass → StorageClass
unfolding carried_default lookup
mirror_storage_class host_sc = record {
  name = host_sc.name;
  labels = managed_labels;
  annotations = carried_default (lookup default_class_annotation host_sc.annotations);
  provisioner = driver_name;
  binding_mode = some (codes "WaitForFirstConsumer");
  reclaim_policy = some (codes "Delete");
  parameters = [];
}

-- A guest's PersistentVolumeClaim. `request` is the text of the requested quantity of storage.
pub record GuestPvc : Type 0 where
  pub meta : ObjectMeta
  pub access_modes : List Text
  pub volume_mode : Option Text
  pub request : Option Text
  pub storage_class_name : Option Text
  pub volume_name : Text

pub record HostPvc : Type 0 where
  pub namespace : Text
  pub name : Text
  pub labels : Labels
  pub access_modes : List Text
  pub volume_mode : Text
  pub storage_class_name : Text
  pub request : Text

-- Why a guest claim is not provisioned, with the value that the text names.
pub data Refusal : Type 0 where
  access_mode volume_mode : Text → Refusal
  no_request : Refusal

pub data MappedPvc : Type 0 where
  mapped : HostPvc → MappedPvc
  refused : Refusal → MappedPvc

-- The loop over the access modes: the first that is not supported.
pub unsupported : List Text → Option Text
unsupported [] = none
unsupported (m ∷ ms) = if m == read_write_once then unsupported ms else some m

bad_mode : Option Text → Option Text
bad_mode none = none
bad_mode (some m) = if m == codes "Filesystem" then none else some m

abbrev pub host_pvc : Library → TenantCluster → ObjectMeta → Text → Text → HostPvc
host_pvc lib tc guest host_class request = record {
  namespace = tc.spec.host_namespace;
  name = host_pvc_name lib tc guest.uid;
  labels = ownership_labels tc guest;
  access_modes = read_write_once ∷ [];
  volume_mode = codes "Block";
  storage_class_name = host_class;
  request = request;
}

requested : Library → TenantCluster → ObjectMeta → Text → Option Text → MappedPvc
requested lib tc guest host_class none = refused Refusal.no_request
requested lib tc guest host_class (some q) =
    if lib.is_zero q
    then refused Refusal.no_request
    else mapped (host_pvc lib tc guest host_class q)

unfoldable pub map_pvc : Library → TenantCluster → GuestPvc → Text → MappedPvc
unfolding unsupported bad_mode requested
map_pvc lib tc guest host_class = elim (unsupported guest.access_modes) [
  | some m ↦ refused (Refusal.access_mode m)
  | none ↦ elim (bad_mode guest.volume_mode) [
    | some m ↦ refused (Refusal.volume_mode m)
    | none ↦ requested lib tc guest.meta host_class guest.request
  ]
]

pub record CsiSource : Type 0 where
  pub driver : Text
  pub volume_handle : Text
  pub fs_type : Text
  pub attributes : Labels

pub record ClaimRef : Type 0 where
  pub namespace : Text
  pub name : Text
  pub uid : Text

-- A guest's PersistentVolume. `capacity` is `none` where the claim names none.
pub record GuestPv : Type 0 where
  pub name : Text
  pub labels : Labels
  pub annotations : Labels
  pub access_modes : List Text
  pub capacity : Option Text
  pub reclaim_policy : Text
  pub storage_class_name : Text
  pub claim_ref : Option ClaimRef
  pub csi : Option CsiSource

unfoldable pub guest_pv_for_claim : Library → GuestPvc → Text → Text → GuestPv
guest_pv_for_claim lib guest host_name class_name = record {
  name = guest_pv_name guest.meta.uid;
  labels = managed_labels;
  annotations = (provisioned_by_annotation, driver_name) ∷ [];
  access_modes = read_write_once ∷ [];
  capacity = guest.request;
  reclaim_policy = codes "Retain";
  storage_class_name = class_name;
  claim_ref =
      some
        (record { namespace = guest.meta.namespace; name = guest.meta.name; uid = guest.meta.uid });
  csi = some (record {
    driver = driver_name;
    volume_handle = host_name;
    fs_type = codes "ext4";
    attributes = ("serial", serial_for lib host_name) ∷ [];
  });
}
