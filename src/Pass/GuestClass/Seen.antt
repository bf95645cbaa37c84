-- ===== src/Pass/GuestClass/Seen.antt =====
-- The calls that offer a GatewayClass inside the guest, and the states that have seen one.
use vcluster_private_cloud_c.Meta.{Labels, read, lookup}
use vcluster_private_cloud_c.Ownership.{merge_labels}
use vcluster_private_cloud_c.Ownership.Guard.{or_else, lookup-merge_labels}
use vcluster_private_cloud_c.Pass.GuestClass.{
  managed_labels, GatewayClass, Call, Answer, Problem, Offer, Api, delete, create, update, done,
  already_exists, not_found, refused, note, issue, attempt, mirror_gateway_class, any_error,
  delete_error, reasserted, has_drifted, guest_gateway_controller_name, class_description,
  describe_domains, allowed_domains_annotation,
}
use vcluster_private_cloud_c.Pass.GuestClass.Kept.{Stable}
use vcluster_private_cloud_c.Prelude.{
  ap, String, find, ◌≡◌, ◌≢◌, ◌⊎◌, inl, inr, refl, ◌∙◌, ◌||◌, Bool, Option, none, some, List, [],
  ◌∷◌, ◌++◌, Text, Any, option_cases, not, true, false, ◌==◌, ==_iff, Any-append_left,
  Any-append_right, is_empty, arith,
}
use vcluster_private_cloud_c.Storage.{managed_by_label, managed_by_value}
use vcluster_private_cloud_c.Tenant.{TenantCluster}
use vcluster_private_cloud_c.Volumes.Classes.{same_text, same_text_eq}

-- A class that says what the operator offers: the controller, the mark, and the allowed domains.
pub record IsOffered (tc : TenantCluster) (gc : GatewayClass) : Type 0 where
  pub controller : gc.controller_name ≡ guest_gateway_controller_name
  pub description : gc.description ≡ some class_description
  pub managed : read managed_by_label gc.labels ≡ managed_by_value
  pub domains :
      read allowed_domains_annotation gc.annotations ≡ describe_domains tc.spec.allowed_domains

-- The accepted call that wrote such a class, or one to create it when another writer was faster.
pub data IsPublish (tc : TenantCluster) : Call × Answer → Type 0 where
  created : {gc : GatewayClass} → IsOffered tc gc → IsPublish tc (create gc, done)
  raced :
      {gc : GatewayClass} {e : Text} → IsOffered tc gc → IsPublish tc (create gc, already_exists e)
  updated : {gc : GatewayClass} → IsOffered tc gc → IsPublish tc (update gc, done)

-- A deletion that left no class of the name.
pub data IsDelete (name : Text) : Call × Answer → Type 0 where
  deleted : IsDelete name (delete name, done)
  missing : {e : Text} → IsDelete name (delete name, not_found e)

abbrev pub Seen : (Call × Answer → Type 0) → Offer → Type 0
Seen Q s = Any Q s.log ⊎ (s.problems ≢ [])

snoc : {A : Type 0} (xs : List A) (x : A) → xs ++ x ∷ [] ≢ []
snoc [] x e = ground arith
snoc (y ∷ xs) x e = ground arith

pub noted-Seen : (p : Problem) (s : Offer) → (note p s).problems ≢ []
unfolding note
noted-Seen p s = snoc s.problems p

pub Seen-Stable : (Q : Call × Answer → Type 0) → Stable (Seen Q)
unfolding issue note
Seen-Stable Q = record {
  called =
      λ c a s h. elim h [ inl m ↦ inl (Any-append_left Q s.log ((c, a) ∷ []) m) | inr k ↦ inr k ];
  noted = λ p s h. elim h [ inl m ↦ inl m | inr k ↦ inr (noted-Seen p s) ];
}

-- A call without an error is seen, and one with an error is a problem.
module _ (Q : Call × Answer → Type 0) (api : Api) where
  pub attempt-Seen :
      (error_of : Answer → Option Text) (c : Call) (next : Offer → Offer) (problem : Text → Problem)
      (s : Offer)
      → ((a : Answer) → error_of a ≡ none → Q (c, a))
      → ((t : Offer) → Seen Q t → Seen Q (next t))
      → Seen Q (attempt api error_of c next problem s)
  unfolding attempt issue
  attempt-Seen error_of c next problem s f k =
      let a = api.answer s.log c in
      let t = issue c a s in
      option_cases (Seen Q) (error_of a) (next t) (λ e. note (problem e) t)
        (λ q. k t (inl (Any-append_right Q s.log ((c, a) ∷ []) (inl (f a q)))))
        (λ e q. inr (noted-Seen (problem e) t))

  pub attempt-then :
      (error_of : Answer → Option Text) (c : Call) (next : Offer → Offer) (problem : Text → Problem)
      (s : Offer)
      → ((t : Offer) → Seen Q (next t))
      → Seen Q (attempt api error_of c next problem s)
  unfolding attempt
  attempt-then error_of c next problem s k =
      let t = issue c (api.answer s.log c) s in
      option_cases (Seen Q) (error_of (api.answer s.log c)) (next t) (λ e. note (problem e) t)
        (λ q. k t) (λ e q. inr (noted-Seen (problem e) t))

pub deleted-IsDelete :
    (name : Text) (a : Answer) → delete_error a ≡ none → IsDelete name (delete name, a)
unfolding delete_error
deleted-IsDelete name done e = deleted
deleted-IsDelete name (not_found x) e = missing
deleted-IsDelete name (already_exists x) e = ground arith
deleted-IsDelete name (refused x) e = ground arith

module _ (tc : TenantCluster) (gc : GatewayClass) (offered : IsOffered tc gc) where
  pub create-IsPublish : (a : Answer) → any_error a ≡ none → IsPublish tc (create gc, a)
  unfolding any_error
  create-IsPublish done e = created offered
  create-IsPublish (not_found x) e = ground arith
  create-IsPublish (already_exists x) e = ground arith
  create-IsPublish (refused x) e = ground arith

  pub update-IsPublish : (a : Answer) → any_error a ≡ none → IsPublish tc (update gc, a)
  unfolding any_error
  update-IsPublish done e = updated offered
  update-IsPublish (not_found x) e = ground arith
  update-IsPublish (already_exists x) e = ground arith
  update-IsPublish (refused x) e = ground arith

-- The mirror is what is offered, and so is a class that the program takes for it or reasserts.
pub mirror-IsOffered : (tc : TenantCluster) → IsOffered tc (mirror_gateway_class tc)
unfolding mirror_gateway_class read lookup find
mirror-IsOffered tc = record {
  controller = refl;
  description = refl;
  managed = refl;
  domains = refl;
}

tests :
    {P : Type 0} (same : Bool) (m n o q : Text)
    → (same ≡ true → P)
    → not same || (not (m == n) || not (o == q)) ≡ false
    → P × ((m ≡ n) × (o ≡ q))
tests true m n o q f h = (f refl, ground (arith, ==_iff m n, ==_iff o q))
tests false m n o q f h = ground arith

not_drifted :
    (live want : GatewayClass)
    → has_drifted live want ≡ false
    → (live.description ≡ want.description)
      × ((read managed_by_label live.labels ≡ managed_by_value)
          × (read allowed_domains_annotation live.annotations
              ≡ read allowed_domains_annotation want.annotations))
unfolding has_drifted
not_drifted live want h =
    tests (same_text live.description want.description) (read managed_by_label live.labels)
      managed_by_value (read allowed_domains_annotation live.annotations)
      (read allowed_domains_annotation want.annotations)
      (same_text_eq live.description want.description) h

pub kept-IsOffered :
    (tc : TenantCluster) (live : GatewayClass)
    → live.controller_name == guest_gateway_controller_name ≡ true
    → has_drifted live (mirror_gateway_class tc) ≡ false
    → IsOffered tc live
kept-IsOffered tc live same still =
    let (d, (m, o)) = not_drifted live (mirror_gateway_class tc) still in
    record {
      controller = (==_iff live.controller_name guest_gateway_controller_name).0 same;
      description = d ∙ (mirror-IsOffered tc).description;
      managed = m;
      domains = o ∙ (mirror-IsOffered tc).domains;
    }

pub empty_text : (s : Text) → is_empty s ≡ true → s ≡ []
empty_text [] e = refl
empty_text (c ∷ s) e = ground arith

not-false : (b : Bool) → not b ≡ false → b ≡ true
not-false true e = refl
not-false false e = ground arith

pub same-controller :
    (tc : TenantCluster) (live : GatewayClass)
    → not (live.controller_name == (mirror_gateway_class tc).controller_name) ≡ false
    → live.controller_name == guest_gateway_controller_name ≡ true
unfolding mirror_gateway_class
same-controller tc live e = not-false (live.controller_name == guest_gateway_controller_name) e

abbrev value_of : Option Text → Text
value_of none = []
value_of (some v) = v

read-merge_labels :
    (k : String) (v : Text) (there want : Labels)
    → lookup k want ≡ some v
    → read k (merge_labels there want) ≡ v
unfolding read lookup
read-merge_labels k v there want h =
    ap value_of (lookup-merge_labels k there want ∙ ap (λ o. or_else o (lookup k there)) h)

pub reasserted-IsOffered :
    (tc : TenantCluster) (live : GatewayClass)
    → live.controller_name == guest_gateway_controller_name ≡ true
    → IsOffered tc (reasserted live (mirror_gateway_class tc))
unfolding mirror_gateway_class reasserted lookup find
reasserted-IsOffered tc live same = record {
  controller = (==_iff live.controller_name guest_gateway_controller_name).0 same;
  description = refl;
  managed = read-merge_labels managed_by_label managed_by_value live.labels managed_labels refl;
  domains = read-merge_labels allowed_domains_annotation _ live.annotations _ refl;
}
