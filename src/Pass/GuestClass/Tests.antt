-- ===== src/Pass/GuestClass/Tests.antt =====
-- The offered GatewayClass of a tenant whose guest holds a class of an older name.
use vcluster_private_cloud_c.Pass.Apply.{absent}
use vcluster_private_cloud_c.Pass.Listing.{items}
use vcluster_private_cloud_c.Pass.GuestClass.{
  nothing_done, GatewayClass, Api, done, delete, create, mirror_gateway_class,
  reconcile_guest_gateway_class, issue, delete_error,
}
use vcluster_private_cloud_c.Pass.GuestClass.Offered.{reconcile_guest_gateway_class-Offers, Offers}
use vcluster_private_cloud_c.Prelude.{◌==◌, ◌≡◌, refl, true, none, [], ◌∷◌, codes}
use vcluster_private_cloud_c.Samples.{tenant}
use vcluster_private_cloud_c.Storage.{managed_labels}
use vcluster_private_cloud_c.Tenant.{sync_gateways}

-- An API server that accepts every call, and conditions that are set already.
abbrev willing : Api
willing = record { answer = λ log c. done; stored = λ log gc. gc; set_condition = λ cs c. none }

abbrev older : GatewayClass
older = record {
  name = codes "old";
  generation = 1;
  labels = managed_labels;
  annotations = [];
  controller_name = codes "vcluster.the-it-dept.io/tenant-syncer";
  description = none;
  conditions = [];
}

replaced :
    reconcile_guest_gateway_class willing tenant true (items (older ∷ [])) absent nothing_done
    ≡ record {
      log = (delete (codes "old"), done) ∷ (create (mirror_gateway_class tenant), done) ∷ [];
      problems = [];
    }
unfolding reconcile_guest_gateway_class ◌==◌ sync_gateways issue delete_error
replaced = refl

no_problem :
    (reconcile_guest_gateway_class willing tenant true
      (items (older ∷ []))
      absent
      nothing_done).problems
    ≡ []
unfolding reconcile_guest_gateway_class ◌==◌ sync_gateways issue delete_error
no_problem = refl

reconcile_guest_gateway_class-Offers_example :
    Offers tenant true
      (older ∷ [])
      absent
      (reconcile_guest_gateway_class willing tenant true
        (items (older ∷ []))
        absent
        nothing_done).log
reconcile_guest_gateway_class-Offers_example =
    reconcile_guest_gateway_class-Offers tenant willing true (older ∷ []) absent no_problem
