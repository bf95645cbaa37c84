-- ===== src/Pass/Limit/Admission.antt =====
-- Which endpoints the limit admits, and how many.
use vcluster_private_cloud_c.Pass.Limit.{Claim, admit}
use vcluster_private_cloud_c.Prelude.{
  ℕ, suc, ◌≡◌, ◌+◌, ◌≤◌, refl, ap, ◌∙◌, Bool, true, false, List, [], ◌∷◌, arith, All, Any, map,
  length, ltb, inl, inr, is_empty, if◌then◌else◌,
}

-- How many of the claims hold an address on the host already.
unfoldable pub number_existing : List (Claim × Bool) → ℕ
number_existing [] = 0
number_existing ((c, existing) ∷ claims) =
    let further = number_existing claims in if existing then suc further else further

-- The admitted and the refused claims together are as many as the claims and those admitted before.
pub admit-length :
    (limit admitted : ℕ) (claims : List (Claim × Bool))
    → (admit limit admitted claims).0 + length (admit limit admitted claims).1
      ≡ admitted + length claims
unfolding admit
admit-length limit admitted [] = ground arith
admit-length limit admitted ((c, existing) ∷ claims) =
    ground (arith, admit-length limit (suc admitted) claims, admit-length limit admitted claims)

-- Beyond the limit only claims go that existed before, so that the tenant holds at most as many
-- addresses as the limit and its existing endpoints allow together.
pub admit-bounded :
    (limit admitted : ℕ) (claims : List (Claim × Bool)) (over : ℕ)
    → admitted ≤ limit + over
    → (admit limit admitted claims).0 ≤ (limit + over) + number_existing claims
unfolding admit number_existing
admit-bounded limit admitted [] over h = ground arith
admit-bounded limit admitted ((c, true) ∷ claims) over h =
    let ih = admit-bounded limit (suc admitted) claims (suc over) (omega arith) in omega arith
admit-bounded limit admitted ((c, false) ∷ claims) over h = ground (
  arith,
  admit-bounded limit (suc admitted) claims over,
  admit-bounded limit admitted claims over,
)

refused_step :
    (room : Bool) (r c : Claim) (claims : List (Claim × Bool)) (next rest : ℕ × List Claim)
    → (Any (λ x. x ≡ r) next.1 → Any (λ x. x ≡ (r, false)) claims)
    → (Any (λ x. x ≡ r) rest.1 → Any (λ x. x ≡ (r, false)) claims)
    → Any (λ x. x ≡ r) (if room then next else (rest.0, c ∷ rest.1)).1
    → Any (λ x. x ≡ (r, false)) ((c, false) ∷ claims)
refused_step true r c claims next rest f g m = inr (f m)
refused_step false r c claims next rest f g (inl e) = inl (ap (λ x. (x, false)) e)
refused_step false r c claims next rest f g (inr later) = inr (g later)

-- An endpoint is refused only if its host object is not there yet.
pub admit-refuses_new :
    (limit admitted : ℕ) (claims : List (Claim × Bool)) (r : Claim)
    → Any (λ x. x ≡ r) (admit limit admitted claims).1
    → Any (λ x. x ≡ (r, false)) claims
unfolding admit
admit-refuses_new limit admitted [] r m = elim m [ ]
admit-refuses_new limit admitted ((c, true) ∷ claims) r m =
    inr (admit-refuses_new limit (suc admitted) claims r m)
admit-refuses_new limit admitted ((c, false) ∷ claims) r m =
    refused_step (ltb admitted limit) r c claims (admit limit (suc admitted) claims)
      (admit limit admitted claims) (admit-refuses_new limit (suc admitted) claims r)
      (admit-refuses_new limit admitted claims r) m

admit-grows :
    (limit admitted : ℕ) (claims : List (Claim × Bool)) → admitted ≤ (admit limit admitted claims).0
unfolding admit
admit-grows limit admitted [] = ground arith
admit-grows limit admitted ((c, existing) ∷ claims) =
    ground (arith, admit-grows limit (suc admitted) claims, admit-grows limit admitted claims)

-- An endpoint is refused only when the limit is used up.
pub admit-refuses_full :
    (limit admitted : ℕ) (claims : List (Claim × Bool))
    → is_empty (admit limit admitted claims).1 ≡ false
    → limit ≤ (admit limit admitted claims).0
unfolding admit
admit-refuses_full limit admitted [] h = absurd (ground arith)
admit-refuses_full limit admitted ((c, existing) ∷ claims) h = ground (
  arith,
  admit-refuses_full limit (suc admitted) claims,
  admit-refuses_full limit admitted claims,
  admit-grows limit admitted claims,
)

existing_admitted :
    (limit admitted : ℕ) (claims : List Claim)
    → admit limit admitted (map (λ c. (c, true)) claims) ≡ (admitted + length claims, [])
unfolding admit
existing_admitted limit admitted [] = ground arith
existing_admitted limit admitted (c ∷ claims) =
    existing_admitted limit (suc admitted) claims ∙ ground arith

-- A new endpoint is admitted whenever it sorts before the existing ones and the limit is not
-- zero, however many existing endpoints there are: the limit then does not stop the growth.
pub admit-overtakes :
    (limit : ℕ) (newcomer : Claim) (claims : List Claim)
    → 1 ≤ limit
    → admit limit 0 ((newcomer, false) ∷ map (λ c. (c, true)) claims) ≡ (suc (length claims), [])
unfolding admit
admit-overtakes limit newcomer claims h = ground (arith, existing_admitted limit 1 claims)

-- What holds of every claim that may be refused holds of the refused ones.
pub admit-refused :
    (P : Claim → Type 0) (limit admitted : ℕ) (claims : List (Claim × Bool))
    → All (λ x. x.1 ≡ false → P x.0) claims
    → All P (admit limit admitted claims).1
unfolding admit
admit-refused P limit admitted [] h = tt
admit-refused P limit admitted ((c, true) ∷ claims) (p, h) =
    admit-refused P limit (suc admitted) claims h
admit-refused P limit admitted ((c, false) ∷ claims) (p, h) =
    either (ltb admitted limit) c (admit limit (suc admitted) claims) (admit limit admitted claims)
      (admit-refused P limit (suc admitted) claims h)
      (p refl, admit-refused P limit admitted claims h)
  where
    either :
        (room : Bool) (d : Claim) (next rest : ℕ × List Claim)
        → All P next.1
        → All P (d ∷ rest.1)
        → All P (if room then next else (rest.0, d ∷ rest.1)).1
    either true d next rest f g = f
    either false d next rest f g = g
