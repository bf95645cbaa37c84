-- ===== src/Pass/WriteBack/Assigned.antt =====
-- When a guest Service is told that its address is assigned.
use vcluster_private_cloud_c.Go.{Library}
use vcluster_private_cloud_c.Pass.WriteBack.{
  Entry, family_of, got_families, not_among, missing_of, missing_families, assigned, condition_of,
  write_back_service,
}
use vcluster_private_cloud_c.Prelude.{
  Option-cases, ◌≡◌, ◌≢◌, ◌⊎◌, ◌↔◌, inl, inr, refl, true, false, none, some, List, [], ◌∷◌, map,
  Text, ◌==◌, ==_iff, is_empty, has, All, Any, Bool-cases, arith,
}

-- A family is served by an address of its own, or by a hostname.
pub Served : Library → List Entry → Text → Type 0
Served lib entries w = Any (λ e. (e.ip ≡ []) ⊎ (family_of lib e.ip ≡ w)) entries

-- What a guest is told of an entry of the host.
abbrev pub told : Entry → Entry
told e = record { ip = e.ip; hostname = e.hostname; detail = [] }

empty_of : {A : Type 0} (s : List A) → is_empty s ≡ true → s ≡ []
empty_of [] e = refl
empty_of (c ∷ s) e = absurd (ground arith)

filled_of : {A : Type 0} (s : List A) → is_empty s ≡ false → s ≢ []
filled_of s e blank = ground arith

module _ (lib : Library) where
  got_families-hostname :
      (entries : List Entry) (w : Text) → got_families lib entries ≡ none → Served lib entries w
  unfolding got_families Served
  got_families-hostname [] w e = absurd (ground arith)
  got_families-hostname (x ∷ entries) w e = elim (Bool-cases (is_empty x.ip)) [
    | inl blank ↦ inl (inl (empty_of x.ip blank))
    | inr filled ↦ elim (Option-cases (got_families lib entries)) [
      | inl q ↦ inr (got_families-hostname entries w q)
      | inr (fams, q) ↦ absurd (ground arith)
    ]
  ]

  got_families-Served :
      (entries : List Entry) (fams : List Text) (w : Text)
      → got_families lib entries ≡ some fams
      → (has ◌==◌ w fams ≡ true) ↔ Served lib entries w
  unfolding got_families has Served
  got_families-Served [] fams w e = (λ h. ground arith, λ h. absurd h)
  got_families-Served (x ∷ entries) fams w e = elim (Bool-cases (is_empty x.ip)) [
    | inl blank ↦ absurd (ground arith)
    | inr filled ↦ elim (Option-cases (got_families lib entries)) [
      | inl q ↦ absurd (ground arith)
      | inr (rest, q) ↦
          let (to, from) = got_families-Served entries rest w q in
          let split : fams ≡ family_of lib x.ip ∷ rest = ground arith in
          rw split (
            λ h. elim (Bool-cases (family_of lib x.ip == w)) [
              | inl same ↦ inl (inr ((==_iff (family_of lib x.ip) w).0 same))
              | inr other ↦ inr (to (ground arith))
            ],
            elim [
              | inl (inl blank) ↦ absurd (filled_of x.ip filled blank)
              | inl (inr same) ↦ ground (arith, (==_iff (family_of lib x.ip) w).1 same)
              | inr later ↦ ground (arith, from later)
            ],
          )
    ]
  ]

  not_among-All :
      (entries : List Entry) (got want : List Text)
      → ((w : Text) → (has ◌==◌ w got ≡ true) ↔ Served lib entries w)
      → (not_among got want ≡ []) ↔ All (Served lib entries) want
  unfolding not_among
  not_among-All entries got [] f = (λ e. tt, λ h. refl)
  not_among-All entries got (w ∷ want) f =
      let (to, from) = not_among-All entries got want f in
      (
        λ e. elim (Bool-cases (has ◌==◌ w got)) [
          | inl among ↦ ((f w).0 among, to (ground arith))
          | inr missing ↦ absurd (ground arith)
        ],
        λ (s, h). ground (arith, (f w).1 s, from h),
      )

  All-Served :
      (entries : List Entry) (want : List Text)
      → ((w : Text) → Served lib entries w)
      → All (Served lib entries) want
  All-Served entries [] f = tt
  All-Served entries (w ∷ want) f = (f w, All-Served entries want f)

  -- No family is missing exactly when each that was asked for is served: by an address of that
  -- family, or by an entry without an address, which is a hostname.
  pub missing_families_iff :
      (want : List Text) (entries : List Entry)
      → (missing_families lib want entries ≡ []) ↔ All (Served lib entries) want
  unfolding missing_families missing_of
  missing_families_iff [] entries = (λ e. tt, λ h. refl)
  missing_families_iff (w ∷ want) entries = elim (Option-cases (got_families lib entries)) [
    | inl q ↦
        rw q
          (λ e. All-Served entries (w ∷ want) (λ v. got_families-hostname entries v q), λ h. refl)
    | inr (got, q) ↦
        rw q (not_among-All entries got (w ∷ want) (λ v. got_families-Served entries got v q))
  ]

  told_iff :
      (want : List Text) (entries : List Entry)
      → ((write_back_service lib want entries).1 ≡ assigned (map told entries))
        ↔ ((entries ≢ []) × All (Served lib (map told entries)) want)
  unfolding write_back_service condition_of
  told_iff want [] = (λ e. absurd (ground arith), λ (filled, h). absurd (filled refl))
  told_iff want (x ∷ entries) =
      let shown = map told (x ∷ entries) in
      let (to, from) = missing_families_iff want shown in
      elim (Bool-cases (is_empty (missing_families lib want shown))) [
        | inl none_missing ↦ rw none_missing (
          λ e.
              (λ blank. ground arith, to (empty_of (missing_families lib want shown) none_missing)),
          λ h. refl,
        )
        | inr some_missing ↦ rw some_missing (
          λ e. absurd (ground arith),
          λ (filled, h). absurd (filled_of (missing_families lib want shown) some_missing (from h)),
        )
      ]

  -- What is written into a guest Service is every entry, in order, with its address and hostname
  -- and without the host's ports and modes; and the condition says that the address is assigned
  -- exactly when there is an entry and every family that was asked for is served.
  pub write_back_service_iff :
      (want : List Text) (entries : List Entry)
      → ((write_back_service lib want entries).0 ≡ map told entries)
        × (((write_back_service lib want entries).1 ≡ assigned (map told entries))
            ↔ ((entries ≢ []) × All (Served lib (map told entries)) want))
  unfolding write_back_service
  write_back_service_iff want entries = (refl, told_iff want entries)
