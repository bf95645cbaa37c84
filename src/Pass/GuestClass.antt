-- ===== src/Pass/GuestClass.antt =====
-- internal/syncer/pass.go: the GatewayClass that is offered inside the guest, with its mirror of
-- internal/syncer/gateway.go.
pub mod Kept
pub mod Seen
pub mod Offered
mod Tests
use vcluster_private_cloud_c.Meta.{Labels, read}
use vcluster_private_cloud_c.Ownership.{merge_labels}
use vcluster_private_cloud_c.Pass.Apply.{Reply, have, absent, error}
use vcluster_private_cloud_c.Pass.Listing.{Listing, items, no_match, list_failed, ApiError}
use vcluster_private_cloud_c.Prelude.{
  ℕ, Bool, true, false, not, ◌&&◌, ◌||◌, Option, none, some, List, [], ◌∷◌, ◌++◌, String, Text,
  codes, ◌==◌, is_empty, if◌then◌else◌,
}
use vcluster_private_cloud_c.Storage.{managed_by_label, managed_by_value, managed_labels}
use vcluster_private_cloud_c.Tenant.{TenantCluster, sync_gateways}
use vcluster_private_cloud_c.Volumes.Classes.{same_text}

abbrev pub guest_gateway_controller_name : Text
guest_gateway_controller_name = codes "vcluster.the-it-dept.io/tenant-syncer"

abbrev pub allowed_domains_annotation : String
allowed_domains_annotation = "vcluster.the-it-dept.io/allowed-domains"

abbrev pub class_description : Text
class_description = codes "Published on the host cluster by the tenant syncer."

-- `metav1.Condition`, with the fields that are set.
pub record Condition : Type 0 where
  pub cond_type : Text
  pub status : Bool
  pub reason : Text
  pub message : Text
  pub observed_generation : ℕ

pub record GatewayClass : Type 0 where
  pub name : Text
  pub generation : ℕ
  pub labels : Labels
  pub annotations : Labels
  pub controller_name : Text
  pub description : Option Text
  pub conditions : List Condition

-- strings.Join, at a comma
join : List Text → Text
join [] = []
join (d ∷ []) = d
join (d ∷ e ∷ ds) = d ++ b',' ∷ join (e ∷ ds)

unfoldable pub describe_domains : List Text → Text
unfolding join
describe_domains [] = codes "(none configured: every Gateway hostname will be refused)"
describe_domains (d ∷ ds) = join (d ∷ ds)

unfoldable pub mirror_gateway_class : TenantCluster → GatewayClass
unfolding describe_domains
mirror_gateway_class tc = record {
  name = tc.spec.gateway_class_name;
  generation = 0;
  labels = managed_labels;
  annotations = (allowed_domains_annotation, describe_domains tc.spec.allowed_domains) ∷ [];
  controller_name = guest_gateway_controller_name;
  description = some class_description;
  conditions = [];
}

unfoldable pub gateway_class_accepted_condition : ℕ → Condition
gateway_class_accepted_condition generation = record {
  cond_type = codes "Accepted";
  status = true;
  reason = codes "Accepted";
  message = codes "the host cluster's tenant syncer serves Gateways on this class";
  observed_generation = generation;
}

-- The writing calls to the guest's API server, and its answers.
pub data Call : Type 0 where
  delete : Text → Call
  create update mark_accepted : GatewayClass → Call

pub data Answer : Type 0 where
  done : Answer
  not_found already_exists refused : ApiError → Answer

pub data Problem : Type 0 where
  unlisted unread delete_failed create_failed replace_failed recreate_failed : ApiError → Problem
  update_failed mark_failed : ApiError → Problem

-- The calls with their answers, and the problems, in order.
pub record Offer : Type 0 where
  pub log : List (Call × Answer)
  pub problems : List Problem

-- What a pass starts with.
abbrev pub nothing_done : Offer
nothing_done = record { log = []; problems = [] }

-- The API server: what it answers, what it returns of a class that it has written, and
-- `meta.SetStatusCondition`, with none for conditions that it does not change.
pub record Api : Type 0 where
  pub answer : List (Call × Answer) → Call → Answer
  pub stored : List (Call × Answer) → GatewayClass → GatewayClass
  pub set_condition : List Condition → Condition → Option (List Condition)

unfoldable pub note : Problem → Offer → Offer
note p s = record { log = s.log; problems = s.problems ++ p ∷ [] }

unfoldable pub issue : Call → Answer → Offer → Offer
issue c a s = record { log = s.log ++ (c, a) ∷ []; problems = s.problems }

-- The error of a Delete call, to which an absent class is none, and of the other calls.
unfoldable pub delete_error : Answer → Option ApiError
delete_error done = none
delete_error (not_found e) = none
delete_error (already_exists e) = some e
delete_error (refused e) = some e

unfoldable pub any_error : Answer → Option ApiError
any_error done = none
any_error (not_found e) = some e
any_error (already_exists e) = some e
any_error (refused e) = some e

-- The name of the class that the guest is offered, and the empty text for none.
unfoldable pub wanted_class : TenantCluster → Bool → Text
wanted_class tc gateway_api =
    if sync_gateways tc && (gateway_api && not (is_empty tc.spec.gateway_class_name))
    then tc.spec.gateway_class_name
    else []

unfoldable pub has_drifted : GatewayClass → GatewayClass → Bool
unfolding same_text read
has_drifted live want =
    not (same_text live.description want.description)
    || (not (read managed_by_label live.labels == managed_by_value)
        || not (
            read allowed_domains_annotation live.annotations
            == read allowed_domains_annotation want.annotations))

unfoldable pub reasserted : GatewayClass → GatewayClass → GatewayClass
reasserted live want = record {
  name = live.name;
  generation = live.generation;
  labels = merge_labels live.labels want.labels;
  annotations = merge_labels live.annotations want.annotations;
  controller_name = live.controller_name;
  description = want.description;
  conditions = live.conditions;
}

abbrev pub with_conditions : List Condition → GatewayClass → GatewayClass
with_conditions cs gc = record {
  name = gc.name;
  generation = gc.generation;
  labels = gc.labels;
  annotations = gc.annotations;
  controller_name = gc.controller_name;
  description = gc.description;
  conditions = cs;
}

module _ (api : Api) where
  unfoldable pub attempt :
      (Answer → Option ApiError) → Call → (Offer → Offer) → (ApiError → Problem) → Offer → Offer
  attempt error_of c next problem s =
      let a = api.answer s.log c in
      elim (error_of a) [ none ↦ next (issue c a s) | some e ↦ note (problem e) (issue c a s) ]

  -- The status of the class that is there in the end.
  unfoldable pub mark : GatewayClass → Offer → Offer
  unfolding attempt
  mark gc s =
      elim (api.set_condition gc.conditions (gateway_class_accepted_condition gc.generation)) [
        | none ↦ s
        | some cs ↦ attempt any_error (mark_accepted (with_conditions cs gc)) (λ t. t) mark_failed s
      ]

  abbrev pub mark_written : GatewayClass → Offer → Offer
  mark_written gc s = mark (api.stored s.log gc) s

  -- The class is not there; one that is there by now is not read again.
  unfoldable pub after_create : GatewayClass → Answer → Offer → Offer
  unfolding mark note
  after_create want done s = mark_written want s
  after_create want (already_exists e) s = mark want s
  after_create want (not_found e) s = note (create_failed e) s
  after_create want (refused e) s = note (create_failed e) s

  -- A class of another controller is replaced, since that field is immutable.
  unfoldable pub reassert : GatewayClass → GatewayClass → Offer → Offer
  unfolding has_drifted reasserted mark attempt
  reassert want live s =
      let other = not (live.controller_name == want.controller_name) in
      if other
      then attempt delete_error (delete live.name)
          (attempt any_error (create want) (mark_written want) recreate_failed) replace_failed s
      else if has_drifted live want
      then attempt any_error (update (reasserted live want)) (mark_written (reasserted live want))
          update_failed s
      else mark live s

  unfoldable pub offer_class : GatewayClass → Reply GatewayClass → Offer → Offer
  unfolding after_create reassert
  offer_class want absent s =
      let a = api.answer s.log (create want) in after_create want a (issue (create want) a s)
  offer_class want (error e) s = note (unread e) s
  offer_class want (have live) s = reassert want live s

  -- A class that is not offered any more, or no longer under this name.
  unfoldable pub delete_other : Text → GatewayClass → Offer → Offer
  unfolding attempt
  delete_other wanted gc s =
      if gc.name == wanted
      then s
      else attempt delete_error (delete gc.name) (λ t. t) delete_failed s

  unfoldable pub delete_others : Text → List GatewayClass → Offer → Offer
  unfolding delete_other
  delete_others wanted [] s = s
  delete_others wanted (gc ∷ gcs) s = delete_others wanted gcs (delete_other wanted gc s)

  -- The guest's managed classes are listed first, and the offered one is read after the deletions.
  unfoldable pub reconcile_guest_gateway_class :
      TenantCluster → Bool → Listing GatewayClass → Reply GatewayClass → Offer → Offer
  unfolding delete_others offer_class wanted_class mirror_gateway_class
  reconcile_guest_gateway_class tc gateway_api (no_match e) reply s = s
  reconcile_guest_gateway_class tc gateway_api (list_failed e) reply s = note (unlisted e) s
  reconcile_guest_gateway_class tc gateway_api (items gcs) reply s =
      let wanted = wanted_class tc gateway_api in
      let left = delete_others wanted gcs s in
      if is_empty wanted then left else offer_class (mirror_gateway_class tc) reply left
