-- ===== src/Hostname.antt =====
-- internal/hostname/hostname.go: which hostnames a guest cluster may publish on the host.
pub mod Covers
pub mod Grants
mod Tests
use vcluster_private_cloud_c.Prelude.{
  ℕ, zero, suc, ◌<◌, Bool, true, false, ◌&&◌, Option, none, some, List, [], ◌∷◌, Text, codes, ◌==◌,
  ltb, is_empty, drop, if◌then◌else◌,
}
use vcluster_private_cloud_c.Go.{
  Unicode, to_lower, trim_space, trim_suffix, contains, index_byte, cut_prefix,
}

-- Lower case, without surrounding spaces and without one root dot.
unfoldable pub canonical : Unicode → Text → Text
unfolding to_lower trim_suffix trim_space
canonical u s = to_lower u (trim_suffix b'.' (trim_space u s))

-- The one-label match of a pattern "*.rest": `dot > 0 && h[dot+1:] == rest`.
one_label : Text → Text → Option ℕ → Bool
one_label h rest none = false
one_label h rest (some dot) = ltb 0 dot && drop (suc dot) h == rest

-- One round of the loop: does this pattern, already canonical, end it with `true`?
pub grants : Text → Bool → Text → Bool
unfolding one_label
grants h host_is_wildcard p =
    if is_empty p
    then false
    else if h == p
    then true
    else if host_is_wildcard
    then false
    else elim (cut_prefix (codes "*.") p) [
      | none ↦ false
      | some rest ↦ one_label h rest (index_byte b'.' h)
    ]

pub allowed_from : Unicode → Text → Bool → List Text → Bool
allowed_from u h host_is_wildcard [] = false
allowed_from u h host_is_wildcard (pat ∷ patterns) =
    if grants h host_is_wildcard (canonical u pat)
    then true
    else allowed_from u h host_is_wildcard patterns

unfoldable pub allowed : Unicode → Text → List Text → Bool
unfolding allowed_from grants
allowed u hostname patterns =
    let h = canonical u hostname in
    if is_empty h then false else allowed_from u h (contains b'*' h) patterns

-- The message of `Refusal`, which names the hostname and, where there are any, the patterns.
pub data Message : Type 0 where
  no_domains_configured : Text → Message
  not_covered : Text → List Text → Message

unfoldable pub refusal : Text → List Text → Message
refusal hostname [] = no_domains_configured hostname
refusal hostname (p ∷ ps) = not_covered hostname (p ∷ ps)
