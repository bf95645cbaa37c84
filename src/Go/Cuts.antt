-- ===== src/Go/Cuts.antt =====
-- Searching and cutting text, with the laws that tie each function to concatenation.
use vcluster_private_cloud_c.Prelude.{
  ℕ, suc, ◌≡◌, refl, ap, ◌≢◌, ◌↔◌, inl, inr, Bool, false, ◌||◌, Option, none, some, List, [], ◌∷◌,
  ◌++◌, Text, eqb, arith, drop, length, All, if◌then◌else◌, Bool-cases, Option-cases,
}
use mathlib.Core.Option

-- strings.Contains at one character
unfoldable pub contains : ℕ → Text → Bool
contains c [] = false
contains c (d ∷ s) = eqb d c || contains c s

-- strings.IndexByte, whose -1 is `none`
unfoldable pub index_byte : ℕ → Text → Option ℕ
index_byte c [] = none
index_byte c (d ∷ s) = if eqb d c then some 0 else Option.map suc (index_byte c s)

-- strings.CutPrefix
unfoldable pub cut_prefix : Text → Text → Option Text
cut_prefix [] s = some s
cut_prefix (c ∷ p) [] = none
cut_prefix (c ∷ p) (d ∷ s) = if eqb c d then cut_prefix p s else none

-- strings.Split at one character
unfoldable pub split : ℕ → Text → List Text
split c [] = [] ∷ []
split c (d ∷ s) = let rest = split c s in if eqb d c then [] ∷ rest else push d rest
  where
    push : ℕ → List Text → List Text
    push d [] = (d ∷ []) ∷ []
    push d (w ∷ ws) = (d ∷ w) ∷ ws

-- No place of the text holds the character.
abbrev pub Without : ℕ → Text → Type 0
Without c s = All (λ d. d ≢ c) s

pub contains-eq-false_iff : (c : ℕ) (s : Text) → (contains c s ≡ false) ↔ Without c s
unfolding contains
contains-eq-false_iff c [] = (λ _. tt, λ _. refl)
contains-eq-false_iff c (d ∷ s) =
    let (to, from) = contains-eq-false_iff c s in
    (λ h. (ground arith, to (ground arith)), λ (n, k). ground (arith, from k))

pub cut_prefix_iff : (p s r : Text) → (cut_prefix p s ≡ some r) ↔ (s ≡ p ++ r)
unfolding cut_prefix
cut_prefix_iff [] s r = ground arith
cut_prefix_iff (c ∷ p) [] r = ground arith
cut_prefix_iff (c ∷ p) (d ∷ s) r = ground (arith, cut_prefix_iff p s r)

-- The first occurrence cuts the text in two, and its index is the length of what stands before.
pub index_byte_cut :
    (c : ℕ) (s : Text) (n : ℕ)
    → index_byte c s ≡ some n
    → (before : Text) × (s ≡ before ++ c ∷ drop (suc n) s) × (length before ≡ n) × Without c before
unfolding index_byte
index_byte_cut c [] n h = absurd (cc h)
index_byte_cut c (d ∷ s) n h = elim (Bool-cases (eqb d c)) [
  | inl e ↦ let at : n ≡ 0 = ground arith in ([], rw at (ground arith), ground arith, tt)
  | inr e ↦ elim (Option-cases (index_byte c s)) [
    | inl missing ↦ absurd (cc (rw (e, missing) at h))
    | inr (m, found) ↦
        let (before, cut, len, free) = index_byte_cut c s m found in
        let at : n ≡ suc m = ground arith in
        (d ∷ before, rw at (ap (◌∷◌ d) cut), rw at (ap suc len), (ground arith, free))
  ]
]

pub index_byte-append :
    (c : ℕ) (before rest : Text)
    → Without c before
    → index_byte c (before ++ c ∷ rest) ≡ some (length before)
unfolding index_byte
index_byte-append c [] rest h = ground arith
index_byte-append c (d ∷ before) rest (n, h) = ground (arith, index_byte-append c before rest h)

pub drop-append :
    (c : ℕ) (before rest : Text) → drop (suc (length before)) (before ++ c ∷ rest) ≡ rest
drop-append c [] rest = refl
drop-append c (d ∷ before) rest = drop-append c before rest
