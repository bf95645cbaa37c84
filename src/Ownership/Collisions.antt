-- ===== src/Ownership/Collisions.antt =====
-- When two guest objects share a host name.
use mathlib.Core.List.{append_assoc}
use mathlib.Core.Path.{ap₂}
use vcluster_private_cloud_c.Prelude.{
  ℕ, ◌≤◌, ◌<◌, ◌≡◌, ◌↔◌, refl, ap, sym, ◌∙◌, true, [], ◌∷◌, ◌++◌, map, Text, length, length-append,
  length-take, take, arith, All, All-append,
}
use vcluster_private_cloud_c.Go.{
  to_lower_rune, Library, Without, Unicode, trim_left, trim_right, to_lower,
}
use vcluster_private_cloud_c.Ownership.{
  name_char, name_rune, sanitize_name, bounded_name, host_object_name, dns1035_label_max_length,
}
use vcluster_private_cloud_c.Ownership.Names.{is_dash, HeadNot, LastNot, LastNot-append}

-- The parts are joined by the `-` that they may hold themselves: an object `c` of the namespace
-- `a-b` and an object `b-c` of the namespace `a` have one host name.
pub host_object_name-regroup :
    (lib : Library) (tc_name a b c : Text)
    → host_object_name lib tc_name (a ++ b'-' ∷ b) c
      ≡ host_object_name lib tc_name a (b ++ b'-' ∷ c)
unfolding host_object_name
host_object_name-regroup lib tc_name a b c =
    ap (λ r. bounded_name lib (sanitize_name lib.unicode (tc_name ++ b'-' ∷ r)))
      (append_assoc a (b'-' ∷ b) (b'-' ∷ c))

append-inj : (a b : Text) {s t : Text} → length a ≡ length b → a ++ s ≡ b ++ t → (a ≡ b) × (s ≡ t)
append-inj [] [] e f = (refl, f)
append-inj [] (c ∷ b) e f = absurd (omega arith)
append-inj (c ∷ a) [] e f = absurd (omega arith)
append-inj (c ∷ a) (d ∷ b) {s} {t} e f = ground (arith, append-inj a b {s = s} {t = t})

truncated :
    (lib : Library) (s : Text)
    → 63 < length s
    → bounded_name lib s ≡ take 52 s ++ b'-' ∷ take 10 (lib.sha256_hex s)
unfolding bounded_name
truncated lib s p = ground arith

-- Of two sanitized names that are too long, the host names agree exactly when the first 52
-- characters and the first ten digits of the digests do.
pub bounded_name-eq_iff :
    (lib : Library) (s t : Text)
    → 63 < length s
    → 63 < length t
    → (bounded_name lib s ≡ bounded_name lib t)
      ↔ ((take 52 s ≡ take 52 t) × (take 10 (lib.sha256_hex s) ≡ take 10 (lib.sha256_hex t)))
bounded_name-eq_iff lib s t p q = (
  λ e.
      let (front, back) =
        append-inj (take 52 s) (take 52 t) (omega (arith, length-take 52 s, length-take 52 t))
          (sym (truncated lib s p) ∙ e ∙ truncated lib t q) in
      (front, ground arith),
  λ (front, back). truncated lib s p ∙ rw (front, back) (sym (truncated lib t q)),
)

-- A name that the API takes for a label: not empty, of name characters, no `-` at either end.
pub record IsLabel (s : Text) : Type 0 where
  pub chars : All (λ c. name_char c ≡ true) s
  pub filled : 0 < length s
  pub head : HeadNot b'-' s
  pub last : LastNot b'-' s

rune_clean : (u : Unicode) (c : ℕ) → name_char c ≡ true → name_rune (to_lower_rune u c) ≡ c
unfolding name_rune to_lower_rune
rune_clean u c h = ground arith

runes_clean :
    (u : Unicode) (s : Text) → All (λ c. name_char c ≡ true) s → map name_rune (to_lower u s) ≡ s
unfolding to_lower
runes_clean u [] h = refl
runes_clean u (c ∷ s) (p, h) = ap₂ ◌∷◌ (rune_clean u c p) (runes_clean u s h)

trim_left-HeadNot_id : (s : Text) → HeadNot b'-' s → trim_left is_dash s ≡ s
unfolding trim_left
trim_left-HeadNot_id [] h = refl
trim_left-HeadNot_id (c ∷ s) h = ground arith

trim_right-LastNot_id : (s : Text) → LastNot b'-' s → trim_right is_dash s ≡ s
unfolding trim_right
trim_right-LastNot_id [] h = refl
trim_right-LastNot_id (c ∷ []) h = ground arith
trim_right-LastNot_id (c ∷ d ∷ s) h = rw (trim_right-LastNot_id (d ∷ s) h) (ground arith)

sanitize_name-IsLabel : (u : Unicode) (s : Text) → IsLabel s → sanitize_name u s ≡ s
unfolding sanitize_name
sanitize_name-IsLabel u s l =
    rw (runes_clean u s l.chars, trim_left-HeadNot_id s l.head) (trim_right-LastNot_id s l.last)

HeadNot-append : (s t : Text) → HeadNot b'-' s → 0 < length s → HeadNot b'-' (s ++ t)
HeadNot-append [] t h p = absurd (omega arith)
HeadNot-append (c ∷ s) t h p = h

IsLabel-join : (s t : Text) → IsLabel s → IsLabel t → IsLabel (s ++ b'-' ∷ t)
IsLabel-join s t a b = record {
  chars = All-append (λ c. name_char c ≡ true) s (b'-' ∷ t) a.chars (refl, b.chars);
  filled = omega (arith, length-append s (b'-' ∷ t));
  head = HeadNot-append s (b'-' ∷ t) a.head a.filled;
  last = LastNot-append s b'-' t b.last b.filled;
}

append_cancel : (s : Text) {t t' : Text} → s ++ t ≡ s ++ t' → t ≡ t'
append_cancel s e = (append-inj s s refl e).1

split-inj :
    (a b : Text) {s t : Text}
    → Without b'-' a
    → Without b'-' b
    → a ++ b'-' ∷ s ≡ b ++ b'-' ∷ t
    → (a ≡ b) × (s ≡ t)
split-inj [] [] h k e = ground arith
split-inj [] (d ∷ b) h k e = absurd (k.0 (ground arith))
split-inj (c ∷ a) [] h k e = absurd (h.0 (ground arith))
split-inj (c ∷ a) (d ∷ b) {s} {t} (p, h) (q, k) e =
    ground (arith, split-inj a b {s = s} {t = t} h k)

abbrev joined : Text → Text → Text → Text
joined tc_name namespace name = tc_name ++ b'-' ∷ (namespace ++ b'-' ∷ name)

short_name :
    (lib : Library) (tc_name namespace name : Text)
    → IsLabel tc_name
    → IsLabel namespace
    → IsLabel name
    → length (joined tc_name namespace name) ≤ dns1035_label_max_length
    → host_object_name lib tc_name namespace name ≡ joined tc_name namespace name
unfolding host_object_name bounded_name
short_name lib tc_name namespace name a b c fits =
    let label =
      IsLabel-join tc_name (namespace ++ b'-' ∷ name) a (IsLabel-join namespace name b c) in
    rw (sanitize_name-IsLabel lib.unicode (joined tc_name namespace name) label) (ground arith)

-- Within one tenant, two objects with label names, in namespaces without `-`, have different host
-- names unless they are the same object, as long as the names fit in 63 characters.
pub host_object_name-injective :
    (lib : Library) (tc_name a n b m : Text)
    → IsLabel tc_name
    → IsLabel a × Without b'-' a × IsLabel n
    → IsLabel b × Without b'-' b × IsLabel m
    → length (joined tc_name a n) ≤ dns1035_label_max_length
    → length (joined tc_name b m) ≤ dns1035_label_max_length
    → host_object_name lib tc_name a n ≡ host_object_name lib tc_name b m
    → (a ≡ b) × (n ≡ m)
host_object_name-injective lib tc_name a n b m t (la, wa, ln) (lb, wb, lm) p q e =
    split-inj a b wa wb (
      append_cancel (b'-' ∷ []) (
        append_cancel tc_name
          (sym (short_name lib tc_name a n t la ln p) ∙ e ∙ short_name lib tc_name b m t lb lm q)))
