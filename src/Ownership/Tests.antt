-- ===== src/Ownership/Tests.antt =====
-- Host names and labels at concrete objects.
use vcluster_private_cloud_c.Prelude.{◌≡◌, refl, true, some, [], ◌∷◌, Text, codes, arith}
use vcluster_private_cloud_c.Meta.{Labels}
use vcluster_private_cloud_c.Samples.{lib, tenant, web_service}
use vcluster_private_cloud_c.Ownership.{
  ownership_labels, owned_by, merge_labels, map_host_object_to_tenant, host_object_name,
}
use vcluster_private_cloud_c.Ownership.Names.{IsDigest, IsName, host_object_name-IsName}
use vcluster_private_cloud_c.Ownership.Collisions.{
  IsLabel, host_object_name-regroup, host_object_name-injective,
}
use vcluster_private_cloud_c.Ownership.Guard.{merge_labels-owned_by}

IsDigest-IsDigest : IsDigest lib.sha256_hex
IsDigest-IsDigest = record { width = λ s. refl; digits = λ s. ground arith }

host_object_name-IsName_example :
    IsName (host_object_name lib (codes "acme") (codes "Team_A") (codes "-web-"))
host_object_name-IsName_example =
    host_object_name-IsName lib IsDigest-IsDigest (codes "acme") (codes "Team_A") (codes "-web-")

host_object_name-regroup_example :
    host_object_name lib (codes "acme") (codes "a-b") (codes "c")
    ≡ host_object_name lib (codes "acme") (codes "a") (codes "b-c")
host_object_name-regroup_example =
    host_object_name-regroup lib (codes "acme") (codes "a") (codes "b") (codes "c")

abbrev long_a : Text
long_a = codes "aaaaaaaaaaaaaaaaaaaaaaaaaaaaaaaaaaaaaaaaaaaaaaaaaaaaaaaaaaaaaaaaaaaaaaaa"

abbrev long_b : Text
long_b = codes "baaaaaaaaaaaaaaaaaaaaaaaaaaaaaaaaaaaaaaaaaaaaaaaaaaaaaaaaaaaaaaaaaaaaaaaa"

acme-IsLabel : IsLabel (codes "acme")
acme-IsLabel = record {
  chars = ground arith;
  filled = omega arith;
  head = omega arith;
  last = omega arith;
}

web-IsLabel : IsLabel (codes "web")
web-IsLabel = record {
  chars = ground arith;
  filled = omega arith;
  head = omega arith;
  last = omega arith;
}

host_object_name-injective_example : (codes "web" ≡ codes "web") × (codes "acme" ≡ codes "acme")
host_object_name-injective_example =
    host_object_name-injective lib (codes "acme") (codes "web") (codes "acme") (codes "web")
      (codes "acme") acme-IsLabel (web-IsLabel, ground arith, acme-IsLabel)
      (web-IsLabel, ground arith, acme-IsLabel) (omega arith) (omega arith) refl

foreign : Labels
foreign = ("team", codes "x") ∷ ("vcluster.the-it-dept.io/tenant-cluster", codes "other") ∷ []

merge_labels-owned_by_example :
    let l = merge_labels foreign (ownership_labels tenant web_service.meta) in
    (owned_by l tenant ≡ true)
    × (map_host_object_to_tenant l ≡ some (codes "tenants", codes "acme"))
merge_labels-owned_by_example =
    merge_labels-owned_by foreign tenant web_service.meta (λ e. ground arith) (λ e. ground arith)
