-- ===== src/Pass/Limit/Sorted.antt =====
-- What any sorting of the claims gives.
use mathlib.Core.List.{Perm}
use mathlib.Core.Logic.{∥∥₁_elim}
use vcluster_private_cloud_c.Pass.Limit.{Claim, before, insert_claim, sort_claims}
use vcluster_private_cloud_c.Pass.Limit.Order.{
  Settled, UidsAreUnique, IsSorted, before-false_trans, before_asym, before_total,
  insert_claim-member, sort_claims-Permᴰ, claims_set, All-self,
}
use vcluster_private_cloud_c.Prelude.{
  ◌≡◌, refl, ap, sym, ◌∙◌, false, List, [], ◌∷◌, All, All-imp, Any, inl, inr, Bool-cases,
}

insert_claim-IsSorted :
    (c : Claim) (claims : List Claim) → IsSorted claims → IsSorted (insert_claim c claims)
unfolding insert_claim
insert_claim-IsSorted c [] s = (tt, tt)
insert_claim-IsSorted c (d ∷ claims) (h, s) = elim (Bool-cases (before c d)) [
  | inl e ↦
      let first = before_asym c d e in
      rw e ((first, All-imp (λ x q. before-false_trans c d x first q) claims h), (h, s))
  | inr e ↦
      rw e (
        insert_claim-member (λ x. before x d ≡ false) c claims e h,
        insert_claim-IsSorted c claims s,
      )
]

-- The claims are in order afterwards: none stands before one that the comparison puts in front.
pub sort_claims-IsSorted : (claims : List Claim) → IsSorted (sort_claims claims)
unfolding sort_claims
sort_claims-IsSorted [] = tt
sort_claims-IsSorted (c ∷ claims) =
    insert_claim-IsSorted c (sort_claims claims) (sort_claims-IsSorted claims)

insert_claim-first :
    (c : Claim) (claims : List Claim)
    → All (λ d. before d c ≡ false) claims
    → All (Settled c) claims
    → insert_claim c claims ≡ c ∷ claims
unfolding insert_claim
insert_claim-first c [] h u = refl
insert_claim-first c (d ∷ claims) (q, h) (v, u) = elim (Bool-cases (before c d)) [
  | inl e ↦ rw e refl
  | inr e ↦
      let same = before_total c d v e q in
      let later = insert_claim-first c claims h u in
      rw (e, later) (ap (λ x. x ∷ c ∷ claims) (sym same) ∙ ap (λ x. c ∷ x ∷ claims) same)
]

module _ (P : Claim → Type 0) (settled : (a b : Claim) → P a → P b → Settled a b) where
  sort_claims-fixed :
      (claims : List Claim) → All P claims → IsSorted claims → sort_claims claims ≡ claims
  unfolding sort_claims
  sort_claims-fixed [] k s = refl
  sort_claims-fixed (c ∷ claims) (p, k) (h, s) =
      ap (insert_claim c) (sort_claims-fixed claims k s)
      ∙ insert_claim-first c claims h (All-imp (λ d q. settled c d p q) claims k)

-- Whatever algorithm sorts the claims, stable or not, gives the same list: one that is a
-- permutation of the claims and in order is the one of `sort_claims`, if UIDs tell the claims
-- apart.
pub sort_claims_unique :
    (xs ys : List Claim) → UidsAreUnique xs → Perm xs ys → IsSorted ys → sort_claims xs ≡ ys
sort_claims_unique xs ys unique p s = ∥∥₁_elim p (claims_set (sort_claims xs) ys) (λ d.
    let IsOf : Claim → Type 0 = λ c. Any (λ x. x ≡ c) xs in
    let (same, k) = sort_claims-Permᴰ IsOf unique d (All-self xs xs (λ c m. m)) in
    same ∙ sort_claims-fixed IsOf unique ys k s)
