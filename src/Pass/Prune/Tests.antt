-- ===== src/Pass/Prune/Tests.antt =====
-- The pruning at concrete values.
use vcluster_private_cloud_c.Ownership.{ownership_labels, owned_by}
use vcluster_private_cloud_c.Pass.Listing.{items, no_match}
use vcluster_private_cloud_c.Pass.Prune.{
  Pruning, Deleter, Host, prune_all, prune_kind, prune_optional, prune_items, delete_owned, given,
}
use vcluster_private_cloud_c.Pass.Prune.Cleaned.{Cleaned, listed, prune_all-Cleaned}
use vcluster_private_cloud_c.Pass.Prune.Owned.{prune_all-owned}
use vcluster_private_cloud_c.Pass.Refs.{new_pass}
use vcluster_private_cloud_c.Prelude.{◌≡◌, refl, true, false, none, [], ◌∷◌, codes, ◌==◌, find, All}
use vcluster_private_cloud_c.Samples.{tenant, web_service}

abbrev obedient : Deleter
obedient obj = none

-- One Service that is ours, and one that is not.
abbrev host : Host
host = record {
  services = items (
      record {
        namespace = codes "vms";
        name = codes "h";
        labels = ownership_labels tenant web_service.meta;
        uid = codes "h-1";
      }
      ∷ record { namespace = codes "vms"; name = codes "other"; labels = []; uid = codes "h-2" }
      ∷ []);
  ingresses = items [];
  gateways = no_match (codes "no kind");
  routes = no_match (codes "no kind");
}

abbrev start : Pruning
start = record { state = new_pass; deleted = [] }

prune_all-owned_example :
    All (λ o. owned_by o.labels tenant ≡ true) (prune_all tenant obedient true host start).deleted
prune_all-owned_example = prune_all-owned tenant obedient true host new_pass

clean : (prune_all tenant obedient true host start).state.prune_failed ≡ false
unfolding prune_all owned_by ownership_labels prune_optional prune_kind prune_items find
    delete_owned ◌==◌
clean = refl

prune_all-Cleaned_example :
    (All
        (Cleaned tenant obedient
          (λ n. given (find ◌==◌ n new_pass.services))
          (prune_all tenant obedient true host start))
        (listed host.services)
      × All
          (Cleaned tenant obedient
            (λ n. given (find ◌==◌ n new_pass.ingresses))
            (prune_all tenant obedient true host start))
          (listed host.ingresses))
    × (true ≡ true
        → All
            (Cleaned tenant obedient
              (λ n. given (find ◌==◌ n new_pass.gateways))
              (prune_all tenant obedient true host start))
            (listed host.gateways)
          × All
              (Cleaned tenant obedient
                (λ n. given (find ◌==◌ n new_pass.routes))
                (prune_all tenant obedient true host start))
              (listed host.routes))
prune_all-Cleaned_example = prune_all-Cleaned tenant obedient true host start clean
