-- ===== src/Pass/Limit/Order.antt =====
-- The order of the claims does not depend on the order in which they were gathered.
use mathlib.Core.Path.{ap₂}
use mathlib.Core.List.{Permᴰ, Perm}
use mathlib.Core.Logic.{∥∥₁_elim}
use vcluster_private_cloud_c.Pass.Limit.{Claim, before, insert_claim, sort_claims}
use vcluster_private_cloud_c.Prelude.{
  text_lt_negtrans, ◌≡◌, refl, sym, subst, ◌∙◌, Bool, true, false, List, [], ◌∷◌, text_lt_irrefl,
  text_lt_trans, text_lt_total, arith, All, Any, Bool-cases, inl, inr, if◌then◌else◌,
}

before_trans : (a b c : Claim) → before a b ≡ true → before b c ≡ true → before a c ≡ true
unfolding before
before_trans a b c p q = ground (arith, text_lt_trans a.uid b.uid c.uid)

before_irrefl : (a : Claim) → before a a ≡ false
unfolding before
before_irrefl a = ground (arith, text_lt_irrefl a.uid)

pub before_asym : (a b : Claim) → before a b ≡ true → before b a ≡ false
before_asym a b p = elim (Bool-cases (before b a)) [
  | inr e ↦ e
  | inl e ↦ absurd (cc (before_trans a b a p e, before_irrefl a))
]

-- A UID belongs to one object.
abbrev pub Settled : Claim → Claim → Type 0
Settled a b = a.uid ≡ b.uid → a ≡ b

pub before_total : (a b : Claim) → Settled a b → before a b ≡ false → before b a ≡ false → a ≡ b
unfolding before
before_total a b s p q = ground (arith, text_lt_total a.uid b.uid)

insert_claim_comm :
    (a b : Claim) (claims : List Claim)
    → Settled a b
    → insert_claim a (insert_claim b claims) ≡ insert_claim b (insert_claim a claims)
unfolding insert_claim
insert_claim_comm a b [] s = ground (arith, before_total a b s, before_asym a b)
insert_claim_comm a b (d ∷ claims) s = ground (
  arith,
  before_total a b s,
  before_asym a b,
  before_trans a b d,
  before_trans b a d,
  insert_claim_comm a b claims s,
)

module _ (P : Claim → Type 0) (settled : (a b : Claim) → P a → P b → Settled a b) where
  pub sort_claims-Permᴰ :
      {xs ys : List Claim} → Permᴰ xs ys → All P xs → (sort_claims xs ≡ sort_claims ys) × All P ys
  unfolding sort_claims
  sort_claims-Permᴰ Permᴰ.nil h = (refl, tt)
  sort_claims-Permᴰ (Permᴰ.cons {a = a} {b = b} {l₁ = l₁} {l₂ = l₂} e d) (p, h) =
      let (same, k) = sort_claims-Permᴰ d h in (ap₂ insert_claim e same, (subst P e p, k))
  sort_claims-Permᴰ (Permᴰ.swap {a = a} {b = b} {l = l} e f) (p, (q, h)) = (
    insert_claim_comm a b (sort_claims l) (settled a b p q)
        ∙ ap₂ (λ x y. insert_claim x (insert_claim y (sort_claims l))) f e,
    (subst P f q, (subst P e p, h)),
  )
  sort_claims-Permᴰ (Permᴰ.trans d e) h =
      let (same, k) = sort_claims-Permᴰ d h in
      let (same', k') = sort_claims-Permᴰ e k in (same ∙ same', k')

pub All-self :
    (xs ys : List Claim)
    → ((c : Claim) → Any (λ x. x ≡ c) xs → Any (λ x. x ≡ c) ys)
    → All (λ c. Any (λ x. x ≡ c) ys) xs
All-self [] ys f = tt
All-self (x ∷ xs) ys f = (f x (inl refl), All-self xs ys (λ c m. f c (inr m)))

-- UIDs tell the claims of the list apart.
abbrev pub UidsAreUnique : List Claim → Type 0
UidsAreUnique claims =
    (a b : Claim) → Any (λ x. x ≡ a) claims → Any (λ x. x ≡ b) claims → Settled a b

pub claims_set : IsSet (List Claim)
claims_set = hlevel

-- Which endpoints come first cannot depend on the order of a Go map: two gatherings of the same
-- claims, in whatever order, are sorted into the same list, if UIDs tell the claims apart.
pub sort_claims-perm :
    (xs ys : List Claim) → UidsAreUnique xs → Perm xs ys → sort_claims xs ≡ sort_claims ys
sort_claims-perm xs ys unique p =
    ∥∥₁_elim p (claims_set (sort_claims xs) (sort_claims ys))
      (λ d. (sort_claims-Permᴰ (λ c. Any (λ x. x ≡ c) xs) unique d (All-self xs xs (λ c m. m))).0)

-- In order: no claim stands before one that the comparison puts in front of it.
abbrev pub IsSorted : List Claim → Type 0
IsSorted [] = Unit
IsSorted (c ∷ claims) = All (λ d. before d c ≡ false) claims × IsSorted claims

pub before-false_trans :
    (a b c : Claim) → before b a ≡ false → before c b ≡ false → before c a ≡ false
unfolding before
before-false_trans a b c p q = ground (arith, text_lt_negtrans a.uid b.uid c.uid)

pub insert_claim-member :
    (P : Claim → Type 0) (c : Claim) (claims : List Claim)
    → P c
    → All P claims
    → All P (insert_claim c claims)
unfolding insert_claim
insert_claim-member P c [] p h = (p, tt)
insert_claim-member P c (d ∷ claims) p (q, h) = elim (Bool-cases (before c d)) [
  | inl e ↦
      subst (λ (b : Bool). All P (if b then c ∷ d ∷ claims else d ∷ insert_claim c claims)) (sym e)
        (p, (q, h))
  | inr e ↦
      subst (λ (b : Bool). All P (if b then c ∷ d ∷ claims else d ∷ insert_claim c claims)) (sym e)
        (q, insert_claim-member P c claims p h)
]

-- Sorting adds no claim.
pub sort_claims-member :
    (P : Claim → Type 0) (claims : List Claim) → All P claims → All P (sort_claims claims)
unfolding sort_claims
sort_claims-member P [] h = tt
sort_claims-member P (c ∷ claims) (p, h) =
    insert_claim-member P c (sort_claims claims) p (sort_claims-member P claims h)
