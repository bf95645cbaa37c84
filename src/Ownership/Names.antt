-- ===== src/Ownership/Names.antt =====
-- Host names are well formed: characters, length, first and last character.
use vcluster_private_cloud_c.Prelude.{
  ℕ, zero, suc, ◌≤◌, ◌<◌, ◌≡◌, ◌≢◌, refl, Bool, true, false, ◌&&◌, ◌||◌, [], ◌∷◌, ◌++◌, map, Text,
  leb, eqb, is_empty, length, length-append, length-take, take, arith, inl, inr, All, All-append,
  All-take, All-imp, Bool-cases,
}
use vcluster_private_cloud_c.Go.{Library, trim_left, trim_right, to_lower}
use vcluster_private_cloud_c.Ownership.{
  name_char, name_rune, sanitize_name, bounded_name, host_object_name, dns1035_label_max_length,
}

-- What the documentation of sha256 and of hexadecimal encoding promises.
abbrev pub hex_digit : ℕ → Bool
hex_digit c = (leb b'0' c && leb c b'9') || (leb b'a' c && leb c b'f')

pub record IsDigest (digest : Text → Text) : Type 0 where
  pub width : (s : Text) → length (digest s) ≡ 64
  pub digits : (s : Text) → All (λ c. hex_digit c ≡ true) (digest s)

abbrev pub HeadNot : ℕ → Text → Type 0
HeadNot c [] = Unit
HeadNot c (d ∷ s) = d ≢ c

abbrev pub LastNot : ℕ → Text → Type 0
LastNot c [] = Unit
LastNot c (d ∷ []) = d ≢ c
LastNot c (d ∷ e ∷ s) = LastNot c (e ∷ s)

-- A name that the host's API takes for a label, the first letter aside: at most 63 of a-z, 0-9
-- and `-`, no `-` at either end.
pub record IsName (s : Text) : Type 0 where
  pub chars : All (λ c. name_char c ≡ true) s
  pub short : length s ≤ dns1035_label_max_length
  pub head : HeadNot b'-' s
  pub last : LastNot b'-' s

module _ (p : ℕ → Bool) (P : ℕ → Type 0) where
  trim_left-All : (s : Text) → All P s → All P (trim_left p s)
  unfolding trim_left
  trim_left-All [] h = tt
  trim_left-All (c ∷ s) (q, h) = ground (arith, trim_left-All s h)

  trim_right-All : (s : Text) → All P s → All P (trim_right p s)
  unfolding trim_right
  trim_right-All [] h = tt
  trim_right-All (c ∷ s) (q, h) = ground (arith, trim_right-All s h)

abbrev pub is_dash : ℕ → Bool
is_dash r = eqb r b'-'

trim_left-HeadNot : (s : Text) → HeadNot b'-' (trim_left is_dash s)
unfolding trim_left
trim_left-HeadNot [] = tt
trim_left-HeadNot (c ∷ s) = ground (arith, trim_left-HeadNot s)

trim_right-HeadNot : (s : Text) → HeadNot b'-' s → HeadNot b'-' (trim_right is_dash s)
unfolding trim_right
trim_right-HeadNot [] h = tt
trim_right-HeadNot (c ∷ s) h = ground arith

LastNot-cons :
    (c : ℕ) (s : Text) → LastNot b'-' s → (is_dash c && is_empty s) ≡ false → LastNot b'-' (c ∷ s)
LastNot-cons c [] h e = ground arith
LastNot-cons c (d ∷ s) h e = h

trim_right-LastNot : (s : Text) → LastNot b'-' (trim_right is_dash s)
unfolding trim_right
trim_right-LastNot [] = tt
trim_right-LastNot (c ∷ s) = elim (Bool-cases (is_dash c && is_empty (trim_right is_dash s))) [
  | inl cut ↦ rw cut tt
  | inr kept ↦ rw kept (LastNot-cons c (trim_right is_dash s) (trim_right-LastNot s) kept)
]

name_rune-All : (s : Text) → All (λ c. name_char c ≡ true) (map name_rune s)
unfolding name_rune
name_rune-All [] = tt
name_rune-All (c ∷ s) = (ground arith, name_rune-All s)

-- The sanitized name, before the length is looked at.
pub record IsBase (s : Text) : Type 0 where
  pub chars : All (λ c. name_char c ≡ true) s
  pub head : HeadNot b'-' s
  pub last : LastNot b'-' s

pub sanitize_name-IsBase : (lib : Library) (s : Text) → IsBase (sanitize_name lib.unicode s)
unfolding sanitize_name
sanitize_name-IsBase lib s =
    let runes : Text = map name_rune (to_lower lib.unicode s) in
    record {
      chars =
          trim_right-All is_dash (λ c. name_char c ≡ true) (trim_left is_dash runes)
            (trim_left-All is_dash (λ c. name_char c ≡ true) runes
              (name_rune-All (to_lower lib.unicode s)));
      head = trim_right-HeadNot (trim_left is_dash runes) (trim_left-HeadNot runes);
      last = trim_right-LastNot (trim_left is_dash runes);
    }

hex-name_char : (c : ℕ) → hex_digit c ≡ true → name_char c ≡ true
hex-name_char c h = ground arith

HeadNot-take :
    (n : ℕ) (s t : Text) → HeadNot b'-' s → 0 < n → n < length s → HeadNot b'-' (take n s ++ t)
HeadNot-take zero s t h p q = absurd (omega arith)
HeadNot-take (suc n) [] t h p q = absurd (omega arith)
HeadNot-take (suc n) (c ∷ s) t h p q = h

LastNot-digits : (s : Text) → All (λ c. hex_digit c ≡ true) s → LastNot b'-' s
LastNot-digits [] h = tt
LastNot-digits (c ∷ []) (p, h) = ground arith
LastNot-digits (c ∷ d ∷ s) (p, h) = LastNot-digits (d ∷ s) h

pub LastNot-append :
    (s : Text) (c : ℕ) (t : Text) → LastNot b'-' t → 0 < length t → LastNot b'-' (s ++ c ∷ t)
LastNot-append [] c [] h p = absurd (omega arith)
LastNot-append [] c (d ∷ t) h p = h
LastNot-append (a ∷ []) c t h p = LastNot-append [] c t h p
LastNot-append (a ∷ b ∷ s) c t h p = LastNot-append (b ∷ s) c t h p

module _ (lib : Library) (hash : IsDigest lib.sha256_hex) where
  truncated-IsName :
      (base : Text)
      → IsBase base
      → 63 < length base
      → IsName (take 52 base ++ b'-' ∷ take 10 (lib.sha256_hex base))
  truncated-IsName base b long =
      let suffix = lib.sha256_hex base in
      let ten = All-take (λ c. hex_digit c ≡ true) 10 suffix (hash.digits base) in
      record {
        chars =
            All-append (λ c. name_char c ≡ true) (take 52 base) (b'-' ∷ take 10 suffix)
              (All-take (λ c. name_char c ≡ true) 52 base b.chars)
              (refl, All-imp hex-name_char (take 10 suffix) ten);
        short = omega (
          arith,
          length-append (take 52 base) (b'-' ∷ take 10 suffix),
          length-take 52 base,
          length-take 10 suffix,
        );
        head = HeadNot-take 52 base (b'-' ∷ take 10 suffix) b.head (omega arith) (omega arith);
        last =
            LastNot-append (take 52 base) b'-' (take 10 suffix)
              (LastNot-digits (take 10 suffix) ten)
              (omega (arith, length-take 10 suffix, hash.width base));
      }

  bounded_name-IsName : (base : Text) → IsBase base → IsName (bounded_name lib base)
  unfolding bounded_name
  bounded_name-IsName base b = elim (Bool-cases (leb (length base) dns1035_label_max_length)) [
    | inl fits ↦
        rw fits (record { chars = b.chars; short = ground arith; head = b.head; last = b.last })
    | inr long ↦ rw long (truncated-IsName base b (ground arith))
  ]

  -- Every host object's name has at most 63 characters, all of them lower-case letters, digits or
  -- `-`, and no `-` at either end, whatever the guest calls its objects.
  pub host_object_name-IsName :
      (tc_name namespace name : Text) → IsName (host_object_name lib tc_name namespace name)
  unfolding host_object_name
  host_object_name-IsName tc_name namespace name =
      bounded_name-IsName (sanitize_name lib.unicode (tc_name ++ b'-' ∷ (namespace ++ b'-' ∷ name)))
        (sanitize_name-IsBase lib (tc_name ++ b'-' ∷ (namespace ++ b'-' ∷ name)))
