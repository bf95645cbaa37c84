-- ===== src/Go/Strings.antt =====
-- Characters, trimming and case, over code points. Below 128 they are written out; above, they
-- read the Unicode tables, which are a parameter.
use vcluster_private_cloud_c.Prelude.{
  ℕ, ◌+◌, Option, Bool, ◌&&◌, ◌||◌, [], ◌∷◌, map, Text, ltb, leb, eqb, is_empty, if◌then◌else◌,
}

pub record Unicode : Type 0 where
  pub lower : ℕ → ℕ
  pub space : ℕ → Bool

-- unicode.ToLower and unicode.IsSpace
unfoldable pub to_lower_rune : Unicode → ℕ → ℕ
to_lower_rune u c = if leb b'A' c && leb c b'Z' then c + 32 else if ltb c 128 then c else u.lower c

unfoldable pub is_space : Unicode → ℕ → Bool
is_space u c = if ltb c 128 then (leb 9 c && leb c 13) || eqb c 32 else u.space c

-- strings.ToLower
unfoldable pub to_lower : Unicode → Text → Text
unfolding to_lower_rune
to_lower u s = map (to_lower_rune u) s

-- strings.TrimLeftFunc and strings.TrimRightFunc
unfoldable pub trim_left : (ℕ → Bool) → Text → Text
trim_left p [] = []
trim_left p (c ∷ s) = if p c then trim_left p s else c ∷ s

unfoldable pub trim_right : (ℕ → Bool) → Text → Text
trim_right p [] = []
trim_right p (c ∷ s) = let rest = trim_right p s in if p c && is_empty rest then [] else c ∷ rest

-- strings.TrimFunc, and with it strings.TrimSpace and strings.Trim
unfoldable pub trim : (ℕ → Bool) → Text → Text
unfolding trim_left trim_right
trim p s = trim_right p (trim_left p s)

unfoldable pub trim_space : Unicode → Text → Text
unfolding trim is_space
trim_space u s = trim (is_space u) s

-- strings.TrimSuffix at a suffix of one character
unfoldable pub trim_suffix : ℕ → Text → Text
trim_suffix c [] = []
trim_suffix c (d ∷ []) = if eqb d c then [] else d ∷ []
trim_suffix c (d ∷ e ∷ s) = d ∷ trim_suffix c (e ∷ s)

-- The library code that the program calls and this development does not write out: the tables
-- above, the digest of crypto/sha256 in hexadecimal, net.ParseIP with the test `To4() != nil`, and
-- the test `IsZero` of a resource.Quantity, given by its text.
pub record Library : Type 0 where
  pub unicode : Unicode
  pub sha256_hex : Text → Text
  pub is_ip4 : Text → Option Bool
  pub is_zero : Text → Bool
