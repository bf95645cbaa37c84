-- ===== src/Reconciler/Tests.antt =====
-- The deletion of a TenantCluster at concrete values.
use vcluster_private_cloud_c.Ownership.{owned_by, ownership_labels}
use vcluster_private_cloud_c.Meta.{read, lookup}
use vcluster_private_cloud_c.Pass.Listing.{items, no_match}
use vcluster_private_cloud_c.Pass.Prune.{Host, Deleter}
use vcluster_private_cloud_c.Prelude.{true, none, some, [], ◌∷◌, codes, find, ◌==◌}
use vcluster_private_cloud_c.Reconciler.{
  reconcile_delete, delete_kind, delete_optional, delete_objects, delete_object, settle,
  after_storage, after_delete,
}
use vcluster_private_cloud_c.Reconciler.LetGo.{
  IsLetGo, deleted_of, AllCleared, reconcile_delete-AllCleared,
}
use vcluster_private_cloud_c.Samples.{lib, tenant, meta_of}
use vcluster_private_cloud_c.KubeVirt.{Vms}
use vcluster_private_cloud_c.Pass.Prune.{HostObject}
use vcluster_private_cloud_c.Volumes.{World, accepted}
use vcluster_private_cloud_c.Pass.Apply.{absent}
use vcluster_private_cloud_c.Volumes.Deletion.{storage_teardown, teardown_swept, teardown_claims}
use vcluster_private_cloud_c.Volumes.Deletion.Finished.{IsDone}
use vcluster_private_cloud_c.Volumes.Orphans.{remove_orphan_vm_volumes}

abbrev world : World
world = record { answer = λ log c. accepted; claim_at = λ log name. absent }

abbrev obedient : Deleter
obedient obj = none

-- A Service of the tenant.
abbrev web : HostObject
web = record {
  namespace = codes "vms";
  name = codes "acme-default-web";
  labels = ownership_labels tenant (meta_of "web" "s-1" 5 []);
  uid = codes "h-1";
}

abbrev host : Host
host = record {
  services = items (web ∷ []);
  ingresses = items [];
  gateways = no_match (codes "no kind");
  routes = no_match (codes "no kind");
}

abbrev nobody : Vms
nobody = []

gone : IsLetGo (reconcile_delete lib tenant world true (items []) (some nobody) obedient true host)
unfolding reconcile_delete after_storage storage_teardown teardown_swept teardown_claims
    remove_orphan_vm_volumes delete_kind delete_optional delete_objects delete_object after_delete
    settle owned_by ownership_labels read lookup find ◌==◌
gone = tt

reconcile_delete-AllCleared_example :
    IsDone (storage_teardown lib tenant world true (items []) (some nobody))
    × AllCleared tenant obedient true host (
        deleted_of
          (reconcile_delete lib tenant world true (items []) (some nobody) obedient true host))
reconcile_delete-AllCleared_example =
    reconcile_delete-AllCleared tenant obedient lib world true (items []) (some nobody) true host
      gone
