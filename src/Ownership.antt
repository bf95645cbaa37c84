-- ===== src/Ownership.antt =====
-- internal/syncer/ownership.go: the labels that mark a host object as this controller's, and the
-- names of host objects. With it `mergeLabels` of internal/syncer/pass.go and
-- `mapHostObjectToTenant` of internal/syncer/tenantcluster_controller.go, which work on the labels.
pub mod Guard
pub mod Names
pub mod Collisions
mod Tests
use vcluster_private_cloud_c.Prelude.{
  ℕ, ◌+◌, Bool, true, false, ◌&&◌, ◌||◌, Option, none, some, List, [], ◌∷◌, ◌++◌, map, String, Text,
  codes, ◌==◌, ltb, leb, eqb, is_empty, length, take, if◌then◌else◌,
}
use vcluster_private_cloud_c.Go.{Unicode, Library, to_lower, trim}
use vcluster_private_cloud_c.Meta.{Labels, read, insert, ObjectMeta}
use vcluster_private_cloud_c.Tenant.{TenantCluster}

abbrev pub label_tenant_cluster : String
label_tenant_cluster = "vcluster.the-it-dept.io/tenant-cluster"

abbrev pub label_tenant_cluster_namespace : String
label_tenant_cluster_namespace = "vcluster.the-it-dept.io/tenant-cluster-namespace"

abbrev pub label_guest_namespace : String
label_guest_namespace = "vcluster.the-it-dept.io/guest-namespace"

abbrev pub label_guest_name : String
label_guest_name = "vcluster.the-it-dept.io/guest-name"

abbrev pub label_guest_uid : String
label_guest_uid = "vcluster.the-it-dept.io/guest-uid"

abbrev pub guest_finalizer : Text
guest_finalizer = codes "vcluster.the-it-dept.io/host-cleanup"

unfoldable pub ownership_labels : TenantCluster → ObjectMeta → Labels
ownership_labels tc guest =
    (label_tenant_cluster, tc.name)
    ∷ (label_tenant_cluster_namespace, tc.namespace)
    ∷ (label_guest_namespace, guest.namespace)
    ∷ (label_guest_name, guest.name)
    ∷ (label_guest_uid, guest.uid)
    ∷ []

-- The guard of every deletion and overwrite.
unfoldable pub owned_by : Labels → TenantCluster → Bool
unfolding read
owned_by l tc =
    read label_tenant_cluster l == tc.name && read label_tenant_cluster_namespace l == tc.namespace

-- `mergeLabels`: a nil map is replaced, and any other takes the wanted keys.
insert_all : Labels → Labels → Labels
insert_all [] have = have
insert_all ((k, v) ∷ want) have = insert k v (insert_all want have)

unfoldable pub merge_labels : Labels → Labels → Labels
unfolding insert_all
merge_labels [] want = want
merge_labels (h ∷ have) want = insert_all want (h ∷ have)

-- Which TenantCluster, by namespace and name, an event on a host object is for.
unfoldable pub map_host_object_to_tenant : Labels → Option (Text × Text)
map_host_object_to_tenant l =
    let name = read label_tenant_cluster l in
    let ns = read label_tenant_cluster_namespace l in
    if is_empty name || is_empty ns then none else some (ns, name)

abbrev pub name_char : ℕ → Bool
name_char r = (leb b'a' r && leb r b'z') || (leb b'0' r && leb r b'9') || eqb r b'-'

name_rune : ℕ → ℕ
name_rune r = if name_char r then r else b'-'

-- `sanitizeName`
unfoldable pub sanitize_name : Unicode → Text → Text
unfolding name_rune trim to_lower
sanitize_name u s = trim (λ r. eqb r b'-') (map name_rune (to_lower u s))

-- validation.DNS1035LabelMaxLength
abbrev pub dns1035_label_max_length : ℕ
dns1035_label_max_length = 63

-- The truncation of `HostObjectName`, on a name that is already sanitized.
unfoldable pub bounded_name : Library → Text → Text
bounded_name lib base =
    if leb (length base) dns1035_label_max_length
    then base
    else take 52 base ++ b'-' ∷ take 10 (lib.sha256_hex base)

unfoldable pub host_object_name : Library → Text → Text → Text → Text
unfolding bounded_name
host_object_name lib tc_name guest_namespace guest_name =
    bounded_name lib
      (sanitize_name lib.unicode (tc_name ++ b'-' ∷ (guest_namespace ++ b'-' ∷ guest_name)))
