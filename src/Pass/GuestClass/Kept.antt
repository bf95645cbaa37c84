-- ===== src/Pass/GuestClass/Kept.antt =====
-- What the calls and the problems that follow leave true of the offer of a GatewayClass.
use vcluster_private_cloud_c.Pass.Apply.{Reply, have, absent, error}
use vcluster_private_cloud_c.Pass.GuestClass.{
  GatewayClass, Call, Answer, Problem, Offer, Api, delete, create, update, done, already_exists,
  not_found, refused, note, issue, attempt, mark, after_create, reassert, offer_class, delete_other,
  delete_others, mark_written, any_error, delete_error, gateway_class_accepted_condition,
  mark_accepted, mark_failed, with_conditions, recreate_failed, replace_failed, update_failed,
  delete_failed, reasserted, has_drifted,
}
use vcluster_private_cloud_c.Prelude.{
  Option, List, [], ◌∷◌, Text, option_cases, if_cases, not, ◌==◌, if◌then◌else◌,
}

-- What holds of a state stays true when a call or a problem is added.
pub record Stable (P : Offer → Type 0) : Type 0 where
  pub called : (c : Call) (a : Answer) (s : Offer) → P s → P (issue c a s)
  pub noted : (p : Problem) (s : Offer) → P s → P (note p s)

module _ (P : Offer → Type 0) (stable : Stable P) (api : Api) where
  attempt-keeps :
      (error_of : Answer → Option Text) (c : Call) (next : Offer → Offer) (problem : Text → Problem)
      (s : Offer)
      → (P (issue c (api.answer s.log c) s) → P (next (issue c (api.answer s.log c) s)))
      → P s
      → P (attempt api error_of c next problem s)
  unfolding attempt
  attempt-keeps error_of c next problem s k h =
      let a = api.answer s.log c in
      let t = issue c a s in
      let called = stable.called c a s h in
      option_cases P (error_of a) (next t) (λ e. note (problem e) t) (λ q. k called)
        (λ e q. stable.noted (problem e) t called)

  pub mark-keeps : (gc : GatewayClass) (s : Offer) → P s → P (mark api gc s)
  unfolding mark
  mark-keeps gc s h =
      option_cases P
        (api.set_condition gc.conditions (gateway_class_accepted_condition gc.generation)) s
        (λ cs. attempt api any_error (mark_accepted (with_conditions cs gc)) (λ t. t) mark_failed s)
        (λ e. h)
        (λ cs e.
          attempt-keeps any_error (mark_accepted (with_conditions cs gc)) (λ t. t) mark_failed s
            (λ k. k) h)

  after_create-keeps :
      (want : GatewayClass) (a : Answer) (s : Offer) → P s → P (after_create api want a s)
  unfolding after_create
  after_create-keeps want done s h = mark-keeps _ s h
  after_create-keeps want (already_exists e) s h = mark-keeps want s h
  after_create-keeps want (not_found e) s h = stable.noted _ s h
  after_create-keeps want (refused e) s h = stable.noted _ s h

  pub mark_written-keeps : (gc : GatewayClass) (s : Offer) → P s → P (mark_written api gc s)
  mark_written-keeps gc s h = mark-keeps (api.stored s.log gc) s h

  pub recreate-keeps :
      (want : GatewayClass) (s : Offer)
      → P s
      → P (attempt api any_error (create want) (mark_written api want) recreate_failed s)
  recreate-keeps want s h =
      attempt-keeps any_error (create want) (mark_written api want) recreate_failed s
        (mark_written-keeps want _) h

  reassert-keeps : (want live : GatewayClass) (s : Offer) → P s → P (reassert api want live s)
  unfolding reassert
  reassert-keeps want live s h =
      let replaced =
        attempt api delete_error (delete live.name)
          (attempt api any_error (create want) (mark_written api want) recreate_failed)
          replace_failed s in
      let fresh = reasserted live want in
      let updated = attempt api any_error (update fresh) (mark_written api fresh) update_failed s in
      if_cases P (not (live.controller_name == want.controller_name)) replaced
        (if has_drifted live want then updated else mark api live s)
        (λ other.
          attempt-keeps delete_error (delete live.name)
            (attempt api any_error (create want) (mark_written api want) recreate_failed)
            replace_failed s (recreate-keeps want _) h)
        (λ same.
          if_cases P (has_drifted live want) updated (mark api live s)
            (λ drift.
              attempt-keeps any_error (update fresh) (mark_written api fresh) update_failed s
                (mark_written-keeps fresh _) h)
            (λ still. mark-keeps live s h))

  pub offer_class-keeps :
      (want : GatewayClass) (reply : Reply GatewayClass) (s : Offer)
      → P s
      → P (offer_class api want reply s)
  unfolding offer_class
  offer_class-keeps want absent s h = after_create-keeps want _ _ (stable.called _ _ s h)
  offer_class-keeps want (error e) s h = stable.noted _ s h
  offer_class-keeps want (have live) s h = reassert-keeps want live s h

  delete_other-keeps :
      (wanted : Text) (gc : GatewayClass) (s : Offer) → P s → P (delete_other api wanted gc s)
  unfolding delete_other
  delete_other-keeps wanted gc s h =
      if_cases P (gc.name == wanted) s
        (attempt api delete_error (delete gc.name) (λ t. t) delete_failed s) (λ e. h)
        (λ e. attempt-keeps delete_error (delete gc.name) (λ t. t) delete_failed s (λ k. k) h)

  pub delete_others-keeps :
      (wanted : Text) (gcs : List GatewayClass) (s : Offer)
      → P s
      → P (delete_others api wanted gcs s)
  unfolding delete_others
  delete_others-keeps wanted [] s h = h
  delete_others-keeps wanted (gc ∷ gcs) s h =
      delete_others-keeps wanted gcs (delete_other api wanted gc s)
        (delete_other-keeps wanted gc s h)
