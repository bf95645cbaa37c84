-- ===== src/Service/Requests.antt =====
-- What the address-family annotations can ask for.
use vcluster_private_cloud_c.Prelude.{
  Member, ◌≡◌, ◌≢◌, ◌↔◌, ◌⊎◌, inl, inr, refl, ap, sym, true, ◌||◌, Option, none, some, List, [],
  ◌∷◌, ◌++◌, Text, ◌==◌, ==_iff, length, ltb, arith, All, All-append, Bool-cases, if◌then◌else◌,
}
use vcluster_private_cloud_c.Go.{Library, split, trim_space}
use vcluster_private_cloud_c.Meta.{lookup}
use vcluster_private_cloud_c.Service.{Service}
use vcluster_private_cloud_c.Service.Families.{
  ipv4, ipv6, single_stack, prefer_dual_stack, require_dual_stack, contains_family, Parsed,
  families, invalid, parse_parts, parse_families, ip_families_annotation,
  ip_family_policy_annotation, asks, requested_address_families, policy_override, requested_from,
  requested_from,
}

-- One of the two families that exist.
abbrev pub IsFamily : Text → Type 0
IsFamily f = (f ≡ ipv4) ⊎ (f ≡ ipv6)

-- No family twice: none stands again behind itself.
abbrev pub Distinct : List Text → Type 0
Distinct [] = Unit
Distinct (f ∷ fams) = (¬ Member f fams) × Distinct fams

pub contains_family_iff :
    (list : List Text) (f : Text) → (contains_family list f ≡ true) ↔ Member f list
unfolding contains_family
contains_family_iff [] f = ground arith
contains_family_iff (x ∷ list) f =
    let (to, from) = contains_family_iff list f in
    (
      λ h. elim (Bool-cases (x == f)) [
        | inl e ↦ inl ((==_iff x f).0 e)
        | inr e ↦ inr (to (ground arith))
      ],
      elim [ inl e ↦ ground (arith, (==_iff x f).1 e) | inr m ↦ ground (arith, from m) ],
    )

Member-append : (f : Text) (xs ys : List Text) → Member f (xs ++ ys) → Member f xs ⊎ Member f ys
Member-append f [] ys m = inr m
Member-append f (x ∷ xs) ys (inl e) = inl (inl e)
Member-append f (x ∷ xs) ys (inr m) = elim (Member-append f xs ys m) [
  | inl k ↦ inl (inr k)
  | inr k ↦ inr k
]

Distinct-concat :
    (out : List Text) (f : Text) → Distinct out → ¬ Member f out → Distinct (out ++ f ∷ [])
Distinct-concat [] f d n = (λ m. m, tt)
Distinct-concat (x ∷ out) f (nx, d) n = (
  λ m. elim (Member-append x out (f ∷ []) m) [
    | inl k ↦ nx k
    | inr k ↦ elim k [ inl e ↦ n (inl (sym e)) | inr b ↦ b ]
  ],
  Distinct-concat out f d (λ k. n (inr k)),
)

-- A list that may be asked for: at least one family, each of the two at most once.
pub record IsRequest (fams : List Text) : Type 0 where
  pub filled : fams ≢ []
  pub known : All IsFamily fams
  pub distinct : Distinct fams

is_family : (f : Text) → (f == ipv4 || f == ipv6) ≡ true → IsFamily f
is_family f h = elim (Bool-cases (f == ipv4)) [
  | inl e ↦ inl ((==_iff f ipv4).0 e)
  | inr e ↦ inr ((==_iff f ipv6).0 (ground arith))
]

parse_parts-IsRequest :
    (lib : Library) (out parts fams : List Text)
    → All IsFamily out
    → Distinct out
    → parse_parts lib out parts ≡ families fams
    → IsRequest fams
unfolding parse_parts
parse_parts-IsRequest lib [] [] fams k d e = absurd (ground arith)
parse_parts-IsRequest lib (f ∷ out) [] fams k d e =
    let same : fams ≡ f ∷ out = ground arith in
    rw same (record { filled = λ h. ground arith; known = k; distinct = d })
parse_parts-IsRequest lib out (part ∷ parts) fams k d e =
    let f = trim_space lib.unicode part in
    elim (Bool-cases (f == ipv4 || f == ipv6)) [
      | inr other ↦ absurd (ground arith)
      | inl family ↦ elim (Bool-cases (contains_family out f)) [
        | inl twice ↦ absurd (ground arith)
        | inr fresh ↦
            parse_parts-IsRequest lib (out ++ f ∷ []) parts fams
              (All-append IsFamily out (f ∷ []) k (is_family f family, tt))
              (Distinct-concat out f d (λ m. cc (fresh, (contains_family_iff out f).1 m)))
              (ground arith)
      ]
    ]

-- A families annotation that is accepted asks for IPv4 or IPv6 or both, each at most once, and for
-- at least one of them.
pub parse_families-IsRequest :
    (lib : Library) (raw : Text) (fams : List Text)
    → parse_families lib raw ≡ families fams
    → IsRequest fams
unfolding parse_families
parse_families-IsRequest lib raw fams e = parse_parts-IsRequest lib [] (split b',' raw) fams tt tt e

-- The families and the policy that an annotation asks for do not depend on the guest's own
-- specification: an annotation takes precedence over it.
pub requested_address_families-annotated :
    (lib : Library) (guest : Service) (raw : Text) (fams : List Text) (policy : Option Text)
    → lookup ip_families_annotation guest.meta.annotations ≡ some raw
    → requested_address_families lib
        (record guest { ip_families = fams; ip_family_policy = policy })
      ≡ requested_address_families lib guest
unfolding requested_address_families
requested_address_families-annotated lib guest raw fams policy e = rw e

-- What a request of the annotation may be: distinct families of the two, and a policy that the API
-- knows; without a policy annotation, one family is single-stack and two require dual-stack.
pub record IsAnnotated (guest : Service) (fams : List Text) (policy : Option Text) : Type 0 where
  pub request : IsRequest fams
  pub known :
      (policy ≡ some single_stack)
      ⊎ ((policy ≡ some prefer_dual_stack) ⊎ (policy ≡ some require_dual_stack))
  pub derived :
      lookup ip_family_policy_annotation guest.meta.annotations ≡ none
      → policy ≡ some (if ltb 1 (length fams) then require_dual_stack else single_stack)

abbrev derived : List Text → Text
derived own = if ltb 1 (length own) then require_dual_stack else single_stack

abbrev IsPolicy : Option Text → Type 0
IsPolicy policy =
    (policy ≡ some single_stack)
    ⊎ ((policy ≡ some prefer_dual_stack) ⊎ (policy ≡ some require_dual_stack))

derived-IsPolicy : (own : List Text) → IsPolicy (some (derived own))
derived-IsPolicy own = elim (Bool-cases (ltb 1 (length own))) [
  | inl e ↦ rw e (inr (inr refl))
  | inr e ↦ rw e (inl refl)
]

tested-IsPolicy :
    (raw : Text)
    → (raw == single_stack || raw == prefer_dual_stack || raw == require_dual_stack) ≡ true
    → IsPolicy (some raw)
tested-IsPolicy raw h = elim (Bool-cases (raw == single_stack)) [
  | inl e ↦ inl (ap some ((==_iff raw single_stack).0 e))
  | inr n ↦ elim (Bool-cases (raw == prefer_dual_stack)) [
    | inl e ↦ inr (inl (ap some ((==_iff raw prefer_dual_stack).0 e)))
    | inr m ↦ inr (inr (ap some ((==_iff raw require_dual_stack).0 (ground arith))))
  ]
]

override-IsAnnotated :
    (guest : Service) (annotation : Option Text) (own fams : List Text) (policy : Option Text)
    → lookup ip_family_policy_annotation guest.meta.annotations ≡ annotation
    → IsRequest own
    → policy_override annotation own (some (derived own)) ≡ asks fams policy
    → IsAnnotated guest fams policy
unfolding policy_override
override-IsAnnotated guest none own fams policy a r e =
    let same : own ≡ fams = ground arith in
    let chosen : some (derived own) ≡ policy = ground arith in
    record {
      request = rw (← same) r;
      known = rw (← chosen) (derived-IsPolicy own);
      derived = λ _. rw (← chosen, ← same) refl;
    }
override-IsAnnotated guest (some raw) own fams policy a r e =
    elim (Bool-cases
      (raw == single_stack || raw == prefer_dual_stack || raw == require_dual_stack)) [
        | inr bad ↦ absurd (ground arith)
        | inl good ↦
            let same : own ≡ fams = ground arith in
            let chosen : some raw ≡ policy = ground arith in
            record {
              request = rw (← same) r;
              known = rw (← chosen) (tested-IsPolicy raw good);
              derived = λ missing. absurd (ground arith);
            }
      ]

-- A guest that carries the families annotation and is not refused asks for what `IsAnnotated`
-- says: IPv4 or IPv6 or both, each once, under a policy that the API knows; unless an annotation
-- gives the policy, it is single-stack for one family and requires dual-stack for two.
pub requested_address_families-IsAnnotated :
    (lib : Library) (guest : Service) (raw : Text) (fams : List Text) (policy : Option Text)
    → lookup ip_families_annotation guest.meta.annotations ≡ some raw
    → requested_address_families lib guest ≡ asks fams policy
    → IsAnnotated guest fams policy
unfolding requested_address_families policy_override
requested_address_families-IsAnnotated lib guest raw fams policy a e =
    annotated_cases (parse_families lib raw) refl (rw a at e)
  where
    annotated_cases :
        (parsed : Parsed)
        → parse_families lib raw ≡ parsed
        → requested_from lib
            (some raw)
            (lookup ip_family_policy_annotation guest.meta.annotations)
            guest
          ≡ asks fams policy
        → IsAnnotated guest fams policy
    annotated_cases (families own) p h =
        override-IsAnnotated guest (lookup ip_family_policy_annotation guest.meta.annotations) own
          fams policy refl (parse_families-IsRequest lib raw own p) (rw (p, requested_from) at h)
    annotated_cases (invalid x) p h = absurd (cc (rw (p, requested_from) at h))
