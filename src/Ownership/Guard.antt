-- ===== src/Ownership/Guard.antt =====
-- The ownership labels: what the guard accepts, and what an update leaves.
use vcluster_private_cloud_c.Prelude.{
  ◌≡◌, ◌≢◌, refl, true, Option, none, some, [], ◌∷◌, String, Text, ==_iff, arith,
}
use vcluster_private_cloud_c.Meta.{Labels, lookup, read, lookup-insert, ObjectMeta}
use vcluster_private_cloud_c.Tenant.{TenantCluster}
use vcluster_private_cloud_c.Ownership.{
  label_tenant_cluster, label_tenant_cluster_namespace, ownership_labels, owned_by, insert_all,
  merge_labels, map_host_object_to_tenant,
}

-- The first of two results, or else the second.
abbrev pub or_else : Option Text → Option Text → Option Text
or_else none b = b
or_else (some a) b = some a

lookup-insert_all :
    (j : String) (want have : Labels)
    → lookup j (insert_all want have) ≡ or_else (lookup j want) (lookup j have)
unfolding insert_all lookup
lookup-insert_all j [] have = refl
lookup-insert_all j ((k, v) ∷ want) have =
    ground (arith, lookup-insert k j v (insert_all want have), lookup-insert_all j want have)

-- A merge takes every wanted key, and leaves each other key as it was.
pub lookup-merge_labels :
    (j : String) (have want : Labels)
    → lookup j (merge_labels have want) ≡ or_else (lookup j want) (lookup j have)
unfolding merge_labels lookup
lookup-merge_labels j [] want = ground arith
lookup-merge_labels j (h ∷ have) want = lookup-insert_all j want (h ∷ have)

-- The guard asks for the two labels themselves, with the tenant's name and namespace.
owned_by-read :
    (l : Labels) (tc : TenantCluster)
    → owned_by l tc ≡ true
    → (read label_tenant_cluster l ≡ tc.name)
      × (read label_tenant_cluster_namespace l ≡ tc.namespace)
unfolding owned_by
owned_by-read l tc h = ground (
  arith,
  ==_iff (read label_tenant_cluster l) tc.name,
  ==_iff (read label_tenant_cluster_namespace l) tc.namespace,
)

owned_by_of_read :
    (l : Labels) (tc : TenantCluster)
    → read label_tenant_cluster l ≡ tc.name
    → read label_tenant_cluster_namespace l ≡ tc.namespace
    → owned_by l tc ≡ true
unfolding owned_by
owned_by_of_read l tc e f = ground (
  arith,
  (==_iff (read label_tenant_cluster l) tc.name).1 e,
  (==_iff (read label_tenant_cluster_namespace l) tc.namespace).1 f,
)

routed_of_read :
    (l : Labels) (tc : TenantCluster)
    → read label_tenant_cluster l ≡ tc.name
    → read label_tenant_cluster_namespace l ≡ tc.namespace
    → tc.name ≢ []
    → tc.namespace ≢ []
    → map_host_object_to_tenant l ≡ some (tc.namespace, tc.name)
unfolding map_host_object_to_tenant
routed_of_read l tc e f named placed = rw (e, f) (ground arith)

-- An object that the guard accepts is routed to the tenant whose guard it is.
pub owned_by-routed :
    (l : Labels) (tc : TenantCluster)
    → owned_by l tc ≡ true
    → tc.name ≢ []
    → tc.namespace ≢ []
    → map_host_object_to_tenant l ≡ some (tc.namespace, tc.name)
owned_by-routed l tc h named placed =
    let (e, f) = owned_by-read l tc h in routed_of_read l tc e f named placed

-- Two tenants whose guards both accept an object are the same tenant, by name and namespace.
pub owned_by_unique :
    (l : Labels) (a b : TenantCluster)
    → owned_by l a ≡ true
    → owned_by l b ≡ true
    → (a.name ≡ b.name) × (a.namespace ≡ b.namespace)
owned_by_unique l a b p q = ground (arith, owned_by-read l a p, owned_by-read l b q)

merge_labels-read :
    (have : Labels) (tc : TenantCluster) (guest : ObjectMeta)
    → let l = merge_labels have (ownership_labels tc guest) in
      (read label_tenant_cluster l ≡ tc.name)
      × (read label_tenant_cluster_namespace l ≡ tc.namespace)
unfolding read lookup ownership_labels
merge_labels-read have tc guest = (
  rw (lookup-merge_labels label_tenant_cluster have (ownership_labels tc guest), read),
  rw (lookup-merge_labels label_tenant_cluster_namespace have (ownership_labels tc guest), read),
)

-- Whatever labels a host object had, after an update it carries its tenant's: the guard accepts
-- it, and an event on it is routed to that tenant, if the tenant's name and namespace are not
-- empty.
pub merge_labels-owned_by :
    (have : Labels) (tc : TenantCluster) (guest : ObjectMeta)
    → tc.name ≢ []
    → tc.namespace ≢ []
    → let l = merge_labels have (ownership_labels tc guest) in
      (owned_by l tc ≡ true) × (map_host_object_to_tenant l ≡ some (tc.namespace, tc.name))
merge_labels-owned_by have tc guest named placed =
    let l = merge_labels have (ownership_labels tc guest) in
    let (e, f) = merge_labels-read have tc guest in
    (owned_by_of_read l tc e f, routed_of_read l tc e f named placed)
