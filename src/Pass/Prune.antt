-- ===== src/Pass/Prune.antt =====
-- internal/syncer/pass.go: the deletion of host objects that are no longer desired.
pub mod Owned
pub mod Cleaned
mod Tests
use vcluster_private_cloud_c.Meta.{Labels}
use vcluster_private_cloud_c.Ownership.{owned_by}
use vcluster_private_cloud_c.Pass.Listing.{Listing, items, no_match, list_failed}
use vcluster_private_cloud_c.Pass.Refs.{Pass, Problem}
use vcluster_private_cloud_c.Pass.Listing.{ApiError}
use vcluster_private_cloud_c.Prelude.{
  Bool, true, false, Option, none, some, List, [], ◌∷◌, ◌++◌, Text, ◌==◌, find, if◌then◌else◌,
}
use vcluster_private_cloud_c.Tenant.{TenantCluster}

-- What of a host object the pruning reads.
pub record HostObject : Type 0 where
  pub namespace : Text
  pub name : Text
  pub labels : Labels
  pub uid : Text

-- A pass with the Delete calls issued so far, each with the object whose UID is its precondition.
pub record Pruning : Type 0 where
  pub state : Pass
  pub deleted : List HostObject

-- What the host's API server answers to a Delete call: an error, or none, as also when the object
-- is gone already.
abbrev pub Deleter : Type 0
Deleter = HostObject → Option ApiError

abbrev pub blame : Problem → Pass → Pass
blame problem p = record p { prune_failed = true; problems = p.problems ++ problem ∷ [] }

unfoldable pub after_delete : HostObject → Option ApiError → Pass → Pass
after_delete obj none p = p
after_delete obj (some e) p = blame (Problem.delete_failed obj.name e) p

unfoldable pub delete_owned : TenantCluster → Deleter → HostObject → Pruning → Pruning
unfolding after_delete
delete_owned tc answer obj s =
    if owned_by obj.labels tc
    then record { state = after_delete obj (answer obj) s.state; deleted = s.deleted ++ obj ∷ [] }
    else s

-- The loop over a listing: what is not desired is deleted.
unfoldable pub prune_items :
    TenantCluster → Deleter → (Text → Bool) → List HostObject → Pruning → Pruning
prune_items tc answer desired [] s = s
prune_items tc answer desired (obj ∷ objs) s =
    prune_items tc answer desired objs
      (if desired obj.name then s else delete_owned tc answer obj s)

abbrev pub failed_listing : ApiError → Pruning → Pruning
failed_listing e s = record s { state = blame (Problem.prune_failed e) s.state }

unfoldable pub prune_kind :
    TenantCluster → Deleter → (Text → Bool) → Listing HostObject → Pruning → Pruning
prune_kind tc answer desired (items objs) s = prune_items tc answer desired objs s
prune_kind tc answer desired (no_match e) s = failed_listing e s
prune_kind tc answer desired (list_failed e) s = failed_listing e s

-- For the kinds that the host may not know.
unfoldable pub prune_optional :
    TenantCluster → Deleter → (Text → Bool) → Listing HostObject → Pruning → Pruning
prune_optional tc answer desired (items objs) s = prune_items tc answer desired objs s
prune_optional tc answer desired (no_match e) s = s
prune_optional tc answer desired (list_failed e) s = failed_listing e s

abbrev pub given : {A : Type 0} → Option A → Bool
given none = false
given (some a) = true

-- The label-scoped listings of the tenant's host namespace.
pub record Host : Type 0 where
  pub services : Listing HostObject
  pub ingresses : Listing HostObject
  pub gateways : Listing HostObject
  pub routes : Listing HostObject

unfoldable pub prune_all : TenantCluster → Deleter → Bool → Host → Pruning → Pruning
prune_all tc answer gateway_api host s =
    let p = s.state in
    let s1 = prune_kind tc answer (λ n. given (find ◌==◌ n p.services)) host.services s in
    let s2 = prune_kind tc answer (λ n. given (find ◌==◌ n p.ingresses)) host.ingresses s1 in
    let s3 = prune_optional tc answer (λ n. given (find ◌==◌ n p.gateways)) host.gateways s2 in
    let s4 = prune_optional tc answer (λ n. given (find ◌==◌ n p.routes)) host.routes s3 in
    if gateway_api then s4 else s2
