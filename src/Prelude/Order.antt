-- ===== src/Prelude/Order.antt =====
-- The order of Go's strings, and sets of names kept in that order.
use mathlib.Core.Path.{◌≡◌, refl}
use mathlib.Core.Logic.{◌↔◌, ◌⊎◌, inl, inr}
use mathlib.Core.Bool.{Bool, true, false}
use mathlib.Core.List.{List, [], ◌∷◌}
use native.Mathlib.Omega.{arith}
use vcluster_private_cloud_c.Prelude.Tests.{ltb, eqb, if◌then◌else◌, Bool-cases}
use vcluster_private_cloud_c.Prelude.Lists.{All, All-imp, Any}
use vcluster_private_cloud_c.Prelude.Texts.{Text, ◌==◌, ==_iff}

-- Lexicographic by code points, which is the order of the bytes of UTF-8.
unfoldable pub text_lt : Text → Text → Bool
text_lt [] [] = false
text_lt [] (d ∷ t) = true
text_lt (c ∷ s) [] = false
text_lt (c ∷ s) (d ∷ t) = if eqb c d then text_lt s t else ltb c d

pub text_lt_irrefl : (s : Text) → text_lt s s ≡ false
unfolding text_lt
text_lt_irrefl [] = refl
text_lt_irrefl (c ∷ s) = ground (arith, text_lt_irrefl s)

pub text_lt_trans : (s t r : Text) → text_lt s t ≡ true → text_lt t r ≡ true → text_lt s r ≡ true
unfolding text_lt
text_lt_trans [] [] r p q = cc
text_lt_trans [] (d ∷ t) [] p q = cc
text_lt_trans [] (d ∷ t) (e ∷ r) p q = refl
text_lt_trans (c ∷ s) [] r p q = cc
text_lt_trans (c ∷ s) (d ∷ t) [] p q = cc
text_lt_trans (c ∷ s) (d ∷ t) (e ∷ r) p q = ground (arith, text_lt_trans s t r)

pub text_lt_total : (s t : Text) → text_lt s t ≡ false → text_lt t s ≡ false → s ≡ t
unfolding text_lt
text_lt_total [] [] p q = refl
text_lt_total [] (d ∷ t) p q = absurd (cc)
text_lt_total (c ∷ s) [] p q = absurd (cc)
text_lt_total (c ∷ s) (d ∷ t) p q = ground (arith, text_lt_total s t)

pub text_lt_negtrans :
    (s t r : Text) → text_lt t s ≡ false → text_lt r t ≡ false → text_lt r s ≡ false
unfolding text_lt
text_lt_negtrans [] [] r p q = q
text_lt_negtrans [] (d ∷ t) [] p q = refl
text_lt_negtrans [] (d ∷ t) (e ∷ r) p q = refl
text_lt_negtrans (c ∷ s) [] r p q = absurd (cc)
text_lt_negtrans (c ∷ s) (d ∷ t) [] p q = absurd (cc)
text_lt_negtrans (c ∷ s) (d ∷ t) (e ∷ r) p q = ground (arith, text_lt_negtrans s t r)

-- An element of a set of names, and the set of a list's names, ascending.
insert_name : Text → List Text → List Text
insert_name x [] = x ∷ []
insert_name x (y ∷ ys) =
    let further = insert_name x ys in
    if x == y then y ∷ ys else if text_lt x y then x ∷ y ∷ ys else y ∷ further

unfoldable pub sorted_names : List Text → List Text
unfolding insert_name
sorted_names [] = []
sorted_names (x ∷ xs) = insert_name x (sorted_names xs)

abbrev pub Member : Text → List Text → Type 0
Member f xs = Any (λ x. x ≡ f) xs

abbrev pub Ascending : List Text → Type 0
Ascending [] = Unit
Ascending (x ∷ xs) = All (λ y. text_lt x y ≡ true) xs × Ascending xs

Member-insert_name :
    (z x : Text) (ys : List Text) → Member z (insert_name x ys) ↔ ((x ≡ z) ⊎ Member z ys)
unfolding insert_name
Member-insert_name z x [] = (λ m. m, λ m. m)
Member-insert_name z x (y ∷ ys) = elim (Bool-cases (x == y)) [
  | inl same ↦ rw same (λ m. inr m, elim [ inl e ↦ inl (ground (arith, ==_iff x y)) | inr m ↦ m ])
  | inr other ↦ elim (Bool-cases (text_lt x y)) [
    | inl before ↦ rw (other, before) (λ m. m, λ m. m)
    | inr after ↦
        let (to, from) = Member-insert_name z x ys in
        rw (other, after)
          (
            elim [
              | inl e ↦ inr (inl e)
              | inr m ↦ elim (to m) [ inl e ↦ inl e | inr k ↦ inr (inr k) ]
            ],
            elim [
              | inl e ↦ inr (from (inl e))
              | inr m ↦ elim m [ inl e ↦ inl e | inr k ↦ inr (from (inr k)) ]
            ],
          )
  ]
]

pub Member-sorted_names : (z : Text) (xs : List Text) → Member z (sorted_names xs) ↔ Member z xs
unfolding sorted_names
Member-sorted_names z [] = (λ m. m, λ m. m)
Member-sorted_names z (x ∷ xs) =
    let (to, from) = Member-insert_name z x (sorted_names xs) in
    let (down, up) = Member-sorted_names z xs in
    (
      λ m. elim (to m) [ inl e ↦ inl e | inr k ↦ inr (down k) ],
      elim [ inl e ↦ from (inl e) | inr k ↦ from (inr (up k)) ],
    )

All-insert_name :
    (P : Text → Type 0) (x : Text) (ys : List Text) → P x → All P ys → All P (insert_name x ys)
unfolding insert_name
All-insert_name P x [] p h = (p, tt)
All-insert_name P x (y ∷ ys) p (q, h) = ground (arith, All-insert_name P x ys p h)

insert_name-Ascending : (x : Text) (ys : List Text) → Ascending ys → Ascending (insert_name x ys)
unfolding insert_name
insert_name-Ascending x [] h = (tt, tt)
insert_name-Ascending x (y ∷ ys) (a, h) = elim (Bool-cases (x == y)) [
  | inl same ↦ rw same (a, h)
  | inr other ↦ elim (Bool-cases (text_lt x y)) [
    | inl before ↦
        rw (other, before) ((before, All-imp (λ z. text_lt_trans x y z before) ys a), (a, h))
    | inr after ↦
        let behind : text_lt y x ≡ true = ground (arith, text_lt_total x y after, ==_iff x y) in
        rw (other, after)
          (All-insert_name (λ z. text_lt y z ≡ true) x ys behind a, insert_name-Ascending x ys h)
  ]
]

pub sorted_names-Ascending : (xs : List Text) → Ascending (sorted_names xs)
unfolding sorted_names
sorted_names-Ascending [] = tt
sorted_names-Ascending (x ∷ xs) =
    insert_name-Ascending x (sorted_names xs) (sorted_names-Ascending xs)
