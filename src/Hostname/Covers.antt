-- ===== src/Hostname/Covers.antt =====
-- When a canonical pattern covers a canonical hostname, said without the code's tests.
use vcluster_private_cloud_c.Prelude.{
  ◌≡◌, ◌≢◌, inl, inr, refl, ap, ◌∙◌, true, [], ◌∷◌, ◌++◌, Text, codes, ◌==◌, ==_iff, ==_refl,
  length, arith, Bool-cases, Option-cases,
}
use vcluster_private_cloud_c.Go.{
  Without, contains, index_byte, cut_prefix, cut_prefix_iff, contains-eq-false_iff, index_byte_cut,
  index_byte-append, drop-append,
}
use vcluster_private_cloud_c.Hostname.{grants, one_label}

-- `h` is one label, not empty and without a dot, in front of `rest`.
pub record OneLabel (rest h : Text) : Type 0 where
  pub label : Text
  pub split : h ≡ label ++ b'.' ∷ rest
  pub filled : label ≢ []
  pub whole : Without b'.' label

-- An identical grant, or a wildcard grant of one label to a hostname that is no wildcard itself.
pub data Covers (p h : Text) : Type 0 where
  identical : h ≡ p → Covers p h
  wildcard : (rest : Text) → p ≡ codes "*." ++ rest → Without b'*' h → OneLabel rest h → Covers p h

one_label_sound : (h rest : Text) → one_label h rest (index_byte b'.' h) ≡ true → OneLabel rest h
unfolding one_label
one_label_sound h rest e = elim (Option-cases (index_byte b'.' h)) [
  | inl missing ↦ absurd (cc (rw (missing, one_label) at e))
  | inr (dot, found) ↦
      let (before, cut, len, free) = index_byte_cut b'.' h dot found in
      let e' = rw (found, one_label) at e in
      record {
        label = before;
        split = cut ∙ ap (λ r. before ++ b'.' ∷ r) ((==_iff _ _).0 (ground arith));
        filled = λ none_left. ground (arith, ap length none_left);
        whole = free;
      }
]

one_label-split :
    (label rest : Text)
    → label ≢ []
    → Without b'.' label
    → one_label (label ++ b'.' ∷ rest) rest (index_byte b'.' (label ++ b'.' ∷ rest)) ≡ true
unfolding one_label
one_label-split [] rest filled whole = absurd (filled refl)
one_label-split (c ∷ label) rest filled whole =
    rw (index_byte-append b'.' (c ∷ label) rest whole, one_label)
      (ground (arith, ap (λ r. r == rest) (drop-append b'.' (c ∷ label) rest), ==_refl rest))

one_label_complete : (h rest : Text) → OneLabel rest h → one_label h rest (index_byte b'.' h) ≡ true
one_label_complete h rest o = rw o.split (one_label-split o.label rest o.filled o.whole)

-- A pattern ends the loop exactly when it covers the hostname.
pub grants-Covers : (h p : Text) → h ≢ [] → grants h (contains b'*' h) p ≡ true → Covers p h
unfolding grants
grants-Covers h p nonempty e = elim (Bool-cases (h == p)) [
  | inl same ↦ identical ((==_iff h p).0 same)
  | inr other ↦ elim (Bool-cases (contains b'*' h)) [
    | inl star ↦ absurd (ground arith)
    | inr plain ↦ elim (Option-cases (cut_prefix (codes "*.") p)) [
      | inl uncut ↦ absurd (ground arith)
      | inr (rest, cut) ↦
          wildcard rest ((cut_prefix_iff (codes "*.") p rest).0 cut)
            ((contains-eq-false_iff b'*' h).0 plain) (one_label_sound h rest (ground arith))
    ]
  ]
]

pub Covers-grants : (h p : Text) → h ≢ [] → Covers p h → grants h (contains b'*' h) p ≡ true
unfolding grants
Covers-grants h [] nonempty (identical e) = absurd (nonempty e)
Covers-grants h (c ∷ p) nonempty (identical e) = ground (arith, ==_iff h (c ∷ p))
Covers-grants h [] nonempty (wildcard rest cut plain o) = absurd (cc)
Covers-grants h (c ∷ p) nonempty (wildcard rest cut plain o) = ground (
  arith,
  (cut_prefix_iff (codes "*.") (c ∷ p) rest).1 cut,
  (contains-eq-false_iff b'*' h).1 plain,
  one_label_complete h rest o,
)
