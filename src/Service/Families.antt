-- ===== src/Service/Families.antt =====
-- internal/syncer/service.go: the address families that a guest asks for, from its annotations and
-- its specification.
use vcluster_private_cloud_c.Prelude.{
  Bool, false, ◌||◌, Option, none, some, List, [], ◌∷◌, ◌++◌, String, Text, codes, ◌==◌, is_empty,
  length, ltb, if◌then◌else◌,
}
use vcluster_private_cloud_c.Go.{Library, split, trim_space}
use vcluster_private_cloud_c.Meta.{lookup}
use vcluster_private_cloud_c.Service.{Service}

abbrev pub ipv4 : Text
ipv4 = codes "IPv4"

abbrev pub ipv6 : Text
ipv6 = codes "IPv6"

abbrev pub single_stack : Text
single_stack = codes "SingleStack"

abbrev pub prefer_dual_stack : Text
prefer_dual_stack = codes "PreferDualStack"

abbrev pub require_dual_stack : Text
require_dual_stack = codes "RequireDualStack"

abbrev pub ip_families_annotation : String
ip_families_annotation = "vcluster.the-it-dept.io/ip-families"

abbrev pub ip_family_policy_annotation : String
ip_family_policy_annotation = "vcluster.the-it-dept.io/ip-family-policy"

unfoldable pub contains_family : List Text → Text → Bool
contains_family [] f = false
contains_family (x ∷ list) f = x == f || contains_family list f

-- The errors of `parseFamilies`, with the text that each names.
pub data FamilyError : Type 0 where
  listed_twice not_a_family : Text → FamilyError
  no_family_given : FamilyError

pub data Parsed : Type 0 where
  families : List Text → Parsed
  invalid : FamilyError → Parsed

-- The test after the loop, and the loop, with the families found so far.
at_end : List Text → Parsed
at_end [] = invalid no_family_given
at_end (f ∷ out) = families (f ∷ out)

unfoldable pub parse_parts : Library → List Text → List Text → Parsed
unfolding at_end
parse_parts lib out [] = at_end out
parse_parts lib out (part ∷ parts) =
    let f = trim_space lib.unicode part in
    let rest = parse_parts lib (out ++ f ∷ []) parts in
    if f == ipv4 || f == ipv6
    then if contains_family out f then invalid (listed_twice f) else rest
    else invalid (not_a_family f)

unfoldable pub parse_families : Library → Text → Parsed
unfolding parse_parts
parse_families lib raw = parse_parts lib [] (split b',' raw)

-- What the annotations ask for, or why they cannot be read.
pub data FamilyRefusal : Type 0 where
  families_annotation : FamilyError → FamilyRefusal
  policy_annotation : Text → FamilyRefusal

pub data Requested : Type 0 where
  asks : List Text → Option Text → Requested
  refused : FamilyRefusal → Requested

-- The policy annotation, after the families: it overrides any policy, or is refused.
unfoldable pub policy_override : Option Text → List Text → Option Text → Requested
policy_override none fams policy = asks fams policy
policy_override (some raw) fams policy =
    if raw == single_stack || raw == prefer_dual_stack || raw == require_dual_stack
    then asks fams (some raw)
    else refused (policy_annotation raw)

unfoldable pub derived_policy : List Text → Text
derived_policy fams = if ltb 1 (length fams) then require_dual_stack else single_stack

unfoldable pub requested_from : Library → Option Text → Option Text → Service → Requested
unfolding policy_override derived_policy
requested_from lib none policy guest =
    policy_override policy guest.ip_families guest.ip_family_policy
requested_from lib (some raw) policy guest = elim (parse_families lib raw) [
  | families fams ↦ policy_override policy fams (some (derived_policy fams))
  | invalid e ↦ refused (families_annotation e)
]

unfoldable pub requested_address_families : Library → Service → Requested
unfolding requested_from
requested_address_families lib guest =
    requested_from lib (lookup ip_families_annotation guest.meta.annotations)
      (lookup ip_family_policy_annotation guest.meta.annotations) guest

-- The first wanted family that the host does not have.
unfoldable pub first_missing : List Text → List Text → Option Text
first_missing [] host_families = none
first_missing (w ∷ want) host_families =
    if contains_family host_families w then first_missing want host_families else some w

-- An unknown host passes everything.
unfoldable pub unsupported_family : List Text → List Text → Option Text
unfolding first_missing
unsupported_family want host_families =
    if is_empty host_families then none else first_missing want host_families
