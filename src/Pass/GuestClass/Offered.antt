-- ===== src/Pass/GuestClass/Offered.antt =====
-- What a pass without a problem leaves of the GatewayClasses that are offered inside the guest.
use vcluster_private_cloud_c.Pass.Apply.{Reply, have, absent, error}
use vcluster_private_cloud_c.Pass.Listing.{items}
use vcluster_private_cloud_c.Pass.GuestClass.{
  nothing_done, create_failed, GatewayClass, Call, Answer, Problem, Offer, Api, delete, create,
  update, done, already_exists, not_found, refused, issue, attempt, mark, after_create, reassert,
  offer_class, delete_other, delete_others, mirror_gateway_class, mark_written, any_error,
  delete_error, recreate_failed, replace_failed, update_failed, delete_failed, reasserted,
  has_drifted, wanted_class, reconcile_guest_gateway_class,
}
use vcluster_private_cloud_c.Pass.GuestClass.Kept.{
  Stable, mark-keeps, mark_written-keeps, offer_class-keeps, delete_others-keeps,
}
use vcluster_private_cloud_c.Pass.GuestClass.Seen.{
  IsOffered, IsPublish, created, raced, IsDelete, Seen, Seen-Stable, attempt-Seen, attempt-then,
  deleted-IsDelete, create-IsPublish, update-IsPublish, mirror-IsOffered, kept-IsOffered,
  reasserted-IsOffered, noted-Seen, same-controller, empty_text,
}
use vcluster_private_cloud_c.Prelude.{
  All-imp, ◌≡◌, ◌⊎◌, inl, inr, refl, Bool, List, [], ◌∷◌, Text, Any, All, if_cases, not, ◌==◌,
  ==_iff, if◌then◌else◌, Any-append_right, is_empty,
}
use vcluster_private_cloud_c.Tenant.{TenantCluster}

module _ (tc : TenantCluster) (api : Api) where
  abbrev want : GatewayClass
  want = mirror_gateway_class tc

  abbrev offered : IsOffered tc want
  offered = mirror-IsOffered tc

  abbrev Shown : Offer → Type 0
  Shown = Seen (IsPublish tc)

  marked : (gc : GatewayClass) (t : Offer) → Shown t → Shown (mark_written api gc t)
  marked gc t h = mark_written-keeps Shown (Seen-Stable (IsPublish tc)) api gc t h

  created-Shown :
      (a : Answer) (s : Offer)
      → Shown (
          after_create api
            (mirror_gateway_class tc)
            a
            (issue (create (mirror_gateway_class tc)) a s))
  unfolding after_create issue
  created-Shown done s =
      marked want _ (inl (Any-append_right (IsPublish tc) s.log _ (inl (created offered))))
  created-Shown (already_exists e) s =
      mark-keeps Shown (Seen-Stable (IsPublish tc)) api want _
        (inl (Any-append_right (IsPublish tc) s.log _ (inl (raced offered))))
  created-Shown (not_found e) s =
      inr (noted-Seen (create_failed e) (issue (create want) (not_found e) s))
  created-Shown (refused e) s =
      inr (noted-Seen (create_failed e) (issue (create want) (refused e) s))

  recreated-Shown :
      (s : Offer)
      → Shown (attempt api any_error (create want) (mark_written api want) recreate_failed s)
  recreated-Shown s =
      attempt-Seen (IsPublish tc) api any_error (create want) (mark_written api want)
        recreate_failed s (create-IsPublish tc want offered) (marked want)

  reassert-Shown :
      (live : GatewayClass) (s : Offer) → IsOffered tc live ⊎ Shown (reassert api want live s)
  unfolding reassert
  reassert-Shown live s =
      let replace = attempt api any_error (create want) (mark_written api want) recreate_failed in
      let replaced = attempt api delete_error (delete live.name) replace replace_failed s in
      let fresh = reasserted live want in
      let updated = attempt api any_error (update fresh) (mark_written api fresh) update_failed s in
      if_cases (λ t. IsOffered tc live ⊎ Shown t)
        (not (live.controller_name == want.controller_name)) replaced
        (if has_drifted live want then updated else mark api live s)
        (λ other. inr (
          attempt-then (IsPublish tc) api delete_error (delete live.name) replace replace_failed s
            recreated-Shown))
        (λ same.
          let ours = same-controller tc live same in
          if_cases (λ t. IsOffered tc live ⊎ Shown t) (has_drifted live want) updated
            (mark api live s)
            (λ drift. inr (
              attempt-Seen (IsPublish tc) api any_error (update fresh) (mark_written api fresh)
                update_failed s (update-IsPublish tc fresh (reasserted-IsOffered tc live ours))
                (marked fresh)))
            (λ still. inl (kept-IsOffered tc live ours still)))

  offer_class-Shown :
      (reply : Reply GatewayClass) (s : Offer)
      → ((live : GatewayClass) × ((reply ≡ have live) × IsOffered tc live))
        ⊎ Shown (offer_class api (mirror_gateway_class tc) reply s)
  unfolding offer_class
  offer_class-Shown absent s = inr (created-Shown _ s)
  offer_class-Shown (error e) s = inr (inr (noted-Seen (Problem.unread e) s))
  offer_class-Shown (have live) s = elim (reassert-Shown live s) [
    | inl offered ↦ inl (live, (refl, offered))
    | inr shown ↦ inr shown
  ]

-- What is shown of a whole pass over the listed classes.
pub record Offers (tc : TenantCluster) (gateway_api : Bool) (gcs : List GatewayClass)
    (reply : Reply GatewayClass) (log : List (Call × Answer)) : Type 0 where
  pub withdrawn :
      All (λ gc. (gc.name ≡ wanted_class tc gateway_api) ⊎ Any (IsDelete gc.name) log) gcs
  pub published :
      (wanted_class tc gateway_api ≡ [])
      ⊎ (((live : GatewayClass) × ((reply ≡ have live) × IsOffered tc live))
          ⊎ Any (IsPublish tc) log)

-- The classes that are not offered any more.
module _ (api : Api) (wanted : Text) where
  abbrev Withdrawn : Offer → GatewayClass → Type 0
  Withdrawn s gc = (gc.name ≡ wanted) ⊎ Seen (IsDelete gc.name) s

  delete_other-Withdrawn :
      (gc : GatewayClass) (s : Offer) → Withdrawn (delete_other api wanted gc s) gc
  unfolding delete_other
  delete_other-Withdrawn gc s =
      let tried = attempt api delete_error (delete gc.name) (λ t. t) delete_failed s in
      if_cases (λ t. Withdrawn t gc) (gc.name == wanted) s tried
        (λ e. inl ((==_iff gc.name wanted).0 e))
        (λ e. inr (
          attempt-Seen (IsDelete gc.name) api delete_error (delete gc.name) (λ t. t) delete_failed s
            (deleted-IsDelete gc.name) (λ t h. h)))

  Withdrawn-Stable : (gc : GatewayClass) → Stable (λ s. Withdrawn s gc)
  Withdrawn-Stable gc =
      let seen = Seen-Stable (IsDelete gc.name) in
      record {
        called = λ c a s h. elim h [ inl e ↦ inl e | inr k ↦ inr (seen.called c a s k) ];
        noted = λ p s h. elim h [ inl e ↦ inl e | inr k ↦ inr (seen.noted p s k) ];
      }

  delete_others-Withdrawn :
      (gcs : List GatewayClass) (s : Offer) → All (Withdrawn (delete_others api wanted gcs s)) gcs
  unfolding delete_others
  delete_others-Withdrawn [] s = tt
  delete_others-Withdrawn (gc ∷ gcs) s =
      let t = delete_other api wanted gc s in
      (
        delete_others-keeps (λ r. Withdrawn r gc) (Withdrawn-Stable gc) api wanted gcs t
            (delete_other-Withdrawn gc s),
        delete_others-Withdrawn gcs t,
      )

module _ (tc : TenantCluster) (api : Api) (gateway_api : Bool) (gcs : List GatewayClass)
    (reply : Reply GatewayClass) where
  abbrev wanted : Text
  wanted = wanted_class tc gateway_api

  abbrev Read : Type 0
  Read = (live : GatewayClass) × ((reply ≡ have live) × IsOffered tc live)

  -- The same, where a problem may have come in the way.
  abbrev Tried : Offer → Type 0
  Tried t = All (Withdrawn api wanted t) gcs × ((wanted ≡ []) ⊎ (Read ⊎ Seen (IsPublish tc) t))

  Tried-Offers : (t : Offer) → t.problems ≡ [] → Tried t → Offers tc gateway_api gcs reply t.log
  Tried-Offers t h (gone, shown) = record {
    withdrawn =
        All-imp (λ gc. elim [ inl e ↦ inl e | inr (inl m) ↦ inr m | inr (inr k) ↦ absurd (k h) ])
          gcs gone;
    published = elim shown [
      | inl none_wanted ↦ inl none_wanted
      | inr (inl r) ↦ inr (inl r)
      | inr (inr (inl m)) ↦ inr (inr m)
      | inr (inr (inr k)) ↦ absurd (k h)
    ];
  }

  offered-Tried :
      (s : Offer) → Tried (reconcile_guest_gateway_class api tc gateway_api (items gcs) reply s)
  unfolding reconcile_guest_gateway_class
  offered-Tried s =
      let left = delete_others api wanted gcs s in
      let gone = delete_others-Withdrawn api wanted gcs s in
      if_cases Tried (is_empty wanted) left (offer_class api (mirror_gateway_class tc) reply left)
        (λ e. (gone, inl (empty_text wanted e)))
        (λ e. (
          All-imp
              (λ gc w.
                offer_class-keeps (λ r. Withdrawn api wanted r gc) (Withdrawn-Stable api wanted gc)
                  api (mirror_gateway_class tc) reply left w)
              gcs gone,
          inr (offer_class-Shown tc api reply left),
        ))

-- When a pass meets no problem, every listed class of another name than the offered one is
-- deleted, or was found gone, and the class that the operator offers, if any, either was read as
-- it should be, with the controller's name, the description, the mark and the tenant's allowed
-- domains, or was created or updated to be so, or the call to create it was answered that a class
-- of the name exists.
pub reconcile_guest_gateway_class-Offers :
    (tc : TenantCluster) (api : Api) (gateway_api : Bool) (gcs : List GatewayClass)
    (reply : Reply GatewayClass)
    → (reconcile_guest_gateway_class api tc gateway_api (items gcs) reply nothing_done).problems
      ≡ []
    → Offers tc gateway_api gcs reply
        (reconcile_guest_gateway_class api tc gateway_api (items gcs) reply nothing_done).log
reconcile_guest_gateway_class-Offers tc api gateway_api gcs reply h =
    Tried-Offers tc api gateway_api gcs reply
      (reconcile_guest_gateway_class api tc gateway_api (items gcs) reply nothing_done) h
      (offered-Tried tc api gateway_api gcs reply nothing_done)
