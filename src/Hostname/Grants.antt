-- ===== src/Hostname/Grants.antt =====
-- What the hostname authority decides, for every hostname and every list of patterns.
use vcluster_private_cloud_c.Prelude.{
  ℕ, suc, ◌+◌, ◌≡◌, ◌≢◌, ◌↔◌, inl, inr, refl, ap, sym, Bool, true, ◌||◌, List, [], ◌∷◌, ◌++◌, Text,
  eqb, arith, Bool-cases, Any, Any-imp, if◌then◌else◌,
}
use vcluster_private_cloud_c.Go.{Unicode, Without, contains}
use vcluster_private_cloud_c.Hostname.{canonical, grants, allowed_from, allowed}
use vcluster_private_cloud_c.Hostname.Covers.{
  Covers, identical, wildcard, grants-Covers, Covers-grants,
}

abbrev CoversCanonical : Unicode → Text → Text → Type 0
CoversCanonical u hostname pat = Covers (canonical u pat) (canonical u hostname)

-- The hostname is not blank, and at least one pattern of the list covers it.
abbrev pub Authorized : Unicode → Text → List Text → Type 0
Authorized u hostname patterns =
    (canonical u hostname ≢ []) × Any (CoversCanonical u hostname) patterns

module _ (u : Unicode) (h : Text) (nonempty : h ≢ []) where
  allowed_from_sound :
      (patterns : List Text)
      → allowed_from u h (contains b'*' h) patterns ≡ true
      → Any (λ pat. Covers (canonical u pat) h) patterns
  unfolding allowed_from
  allowed_from_sound [] e = cc
  allowed_from_sound (pat ∷ patterns) e =
      elim (Bool-cases (grants h (contains b'*' h) (canonical u pat))) [
        | inl hit ↦ inl (grants-Covers h (canonical u pat) nonempty hit)
        | inr miss ↦ inr (allowed_from_sound patterns (ground arith))
      ]

  allowed_from_complete :
      (patterns : List Text)
      → Any (λ pat. Covers (canonical u pat) h) patterns
      → allowed_from u h (contains b'*' h) patterns ≡ true
  unfolding allowed_from
  allowed_from_complete [] a = absurd a
  allowed_from_complete (pat ∷ patterns) (inl c) = rw (Covers-grants h (canonical u pat) nonempty c)
  allowed_from_complete (pat ∷ patterns) (inr a) = ground (arith, allowed_from_complete patterns a)

-- A hostname is allowed exactly when it is not blank and some pattern of the list covers it: by
-- being the same name, or, for a hostname without `*`, as "*." in front of what follows its first
-- label, which is not empty. Both are compared without case, outer spaces and one root dot.
pub allowed_iff :
    (u : Unicode) (hostname : Text) (patterns : List Text)
    → (allowed u hostname patterns ≡ true) ↔ Authorized u hostname patterns
unfolding allowed
allowed_iff u hostname patterns = (to, from)
  where
    to : allowed u hostname patterns ≡ true → Authorized u hostname patterns
    to e =
        let nonempty : canonical u hostname ≢ [] = λ blank. ground arith in
        (nonempty, allowed_from_sound u (canonical u hostname) nonempty patterns (ground arith))

    from : Authorized u hostname patterns → allowed u hostname patterns ≡ true
    from (nonempty, a) =
        ground (arith, allowed_from_complete u (canonical u hostname) nonempty patterns a)

-- The dots of a name: one less than its labels.
abbrev pub dots : Text → ℕ
dots [] = 0
dots (c ∷ s) = (if eqb c b'.' then 1 else 0) + dots s

dots-label :
    (label rest : Text) → Without b'.' label → dots (label ++ b'.' ∷ rest) ≡ suc (dots rest)
dots-label [] rest h = ground arith
dots-label (c ∷ label) rest (n, h) = ground (arith, dots-label label rest h)

Covers-dots : (p h : Text) → Covers p h → dots p ≡ dots h
Covers-dots p h (identical e) = ap dots (sym e)
Covers-dots p h (wildcard rest cut plain o) =
    ground (arith, ap dots cut, ap dots o.split, dots-label o.label rest o.whole)

-- A grant never reaches deeper or higher names: an allowed hostname has as many labels as a
-- pattern of the list that covers it.
pub allowed-dots :
    (u : Unicode) (hostname : Text) (patterns : List Text)
    → allowed u hostname patterns ≡ true
    → Any
        (λ pat.
          CoversCanonical u hostname pat × (dots (canonical u pat) ≡ dots (canonical u hostname)))
        patterns
allowed-dots u hostname patterns e =
    Any-imp (λ pat c. (c, Covers-dots (canonical u pat) (canonical u hostname) c)) patterns
      ((allowed_iff u hostname patterns).0 e).1

allowed_from-append :
    (u : Unicode) (h : Text) (w : Bool) (ps qs : List Text)
    → allowed_from u h w (ps ++ qs) ≡ allowed_from u h w ps || allowed_from u h w qs
unfolding allowed_from
allowed_from-append u h w [] qs = refl
allowed_from-append u h w (p ∷ ps) qs = ground (arith, allowed_from-append u h w ps qs)

-- The list is a union of grants: two lists joined allow what the one or the other allows.
pub allowed-append :
    (u : Unicode) (hostname : Text) (ps qs : List Text)
    → allowed u hostname (ps ++ qs) ≡ allowed u hostname ps || allowed u hostname qs
unfolding allowed
allowed-append u hostname ps qs = ground (
  arith,
  allowed_from-append u (canonical u hostname) (contains b'*' (canonical u hostname)) ps qs,
)
