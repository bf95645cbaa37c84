-- ===== src/KubeVirt/Merge.antt =====
-- What the merged view of machines and instances reports of one machine's volumes.
pub mod Machines
pub mod Queued
use vcluster_private_cloud_c.KubeVirt.{
  Json, Fields, string, flag, object, other, text_at, object_at, VolumeState, Volumes, state_of,
  add_spec, add_queued, queued_state, added_by, add_status, each, Vm, vm_volumes,
}
use vcluster_private_cloud_c.Prelude.{
  ◌≡◌, ◌≢◌, ◌↔◌, ◌⊎◌, inl, inr, refl, sym, ◌∙◌, Bool, true, false, Option, none, some, List, [],
  ◌∷◌, Text, ◌==◌, ==_iff, is_empty, find, put, find-put, Any, Bool-cases, if_cases, arith,
  if◌then◌else◌,
}

-- The name that a volume or a status carries, and the one that a request adds; empty for none.
abbrev pub name_of : Json → Text
name_of (object m) = text_at "name" m
name_of (string t) = []
name_of (flag b) = []
name_of other = []

abbrev pub name_in : Option Fields → Text
name_in none = []
name_in (some add) = text_at "name" add

abbrev pub queued_name : Json → Text
queued_name r = name_in (added_by r)

abbrev pub given : Option VolumeState → Bool
given none = false
given (some st) = true

-- The volume is listed, and it is listed as desired.
abbrev pub IsHere : Text → Volumes → Type 0
IsHere n vols = given (find ◌==◌ n vols) ≡ true

abbrev pub IsInSpec : Text → Volumes → Type 0
IsInSpec n vols = (state_of (find ◌==◌ n vols)).in_spec ≡ true

-- Named in the specification of the machine, or in a queued request.
pub IsDesired : Text → Vm → Type 0
IsDesired n vm = Any (λ r. queued_name r ≡ n) vm.requests ⊎ Any (λ v. name_of v ≡ n) vm.volumes

-- Three facts about a volume, after a step that may add a volume of the name `x`.
module _ (n : Text) (named : n ≢ []) where
  put-IsHere :
      (x : Text) (st : VolumeState) (vols : Volumes)
      → IsHere n (put ◌==◌ x st vols) ↔ ((x ≡ n) ⊎ IsHere n vols)
  put-IsHere x st vols = elim (Bool-cases (x == n)) [
    | inl same ↦
        (λ h. inl ((==_iff x n).0 same), λ h. ground (arith, find-put ◌==◌ ==_iff x n st vols))
    | inr differs ↦ (
      λ h. inr (ground (arith, find-put ◌==◌ ==_iff x n st vols)),
      elim [
        | inl e ↦ absurd (ground (arith, ==_iff x n, e))
        | inr h ↦ ground (arith, find-put ◌==◌ ==_iff x n st vols, h)
      ],
    )
  ]

  put-IsInSpec :
      (x : Text) (st : VolumeState) (vols : Volumes)
      → st.in_spec ≡ true
      → IsInSpec n (put ◌==◌ x st vols) ↔ ((x ≡ n) ⊎ IsInSpec n vols)
  put-IsInSpec x st vols on = elim (Bool-cases (x == n)) [
    | inl same ↦
        (λ h. inl ((==_iff x n).0 same), λ h. ground (arith, find-put ◌==◌ ==_iff x n st vols))
    | inr differs ↦ (
      λ h. inr (ground (arith, find-put ◌==◌ ==_iff x n st vols)),
      elim [
        | inl e ↦ absurd (ground (arith, ==_iff x n, e))
        | inr h ↦ ground (arith, find-put ◌==◌ ==_iff x n st vols, h)
      ],
    )
  ]

  -- A name that is empty is not the name in question.
  unnamed : (P : Type 0) (x : Text) → is_empty x ≡ true → P ↔ ((x ≡ n) ⊎ P)
  unnamed P [] e = (inr, elim [ inl q ↦ absurd (named (sym q)) | inr h ↦ h ])
  unnamed P (c ∷ x) e = absurd (ground arith)

  if_named :
      (P : Volumes → Type 0) (x : Text) (vols new : Volumes)
      → P new ↔ ((x ≡ n) ⊎ P vols)
      → P (if is_empty x then vols else new) ↔ ((x ≡ n) ⊎ P vols)
  if_named P x vols new f =
      if_cases (λ v. P v ↔ ((x ≡ n) ⊎ P vols)) (is_empty x) vols new (λ e. unnamed (P vols) x e)
        (λ e. f)

  no_name : (P : Type 0) → P ↔ (([] ≡ n) ⊎ P)
  no_name P = unnamed P [] refl

  add_spec-IsHere :
      (v : Json) (vols : Volumes) → IsHere n (add_spec v vols) ↔ ((name_of v ≡ n) ⊎ IsHere n vols)
  unfolding add_spec
  add_spec-IsHere (object m) vols =
      if_named (IsHere n) (text_at "name" m) vols _ (put-IsHere (text_at "name" m) _ vols)
  add_spec-IsHere (string t) vols = no_name (IsHere n vols)
  add_spec-IsHere (flag b) vols = no_name (IsHere n vols)
  add_spec-IsHere other vols = no_name (IsHere n vols)

  add_spec-IsInSpec :
      (v : Json) (vols : Volumes)
      → IsInSpec n (add_spec v vols) ↔ ((name_of v ≡ n) ⊎ IsInSpec n vols)
  unfolding add_spec
  add_spec-IsInSpec (object m) vols =
      if_named (IsInSpec n) (text_at "name" m) vols _ (put-IsInSpec (text_at "name" m) _ vols refl)
  add_spec-IsInSpec (string t) vols = no_name (IsInSpec n vols)
  add_spec-IsInSpec (flag b) vols = no_name (IsInSpec n vols)
  add_spec-IsInSpec other vols = no_name (IsInSpec n vols)

  add_queued-IsHere :
      (o : Option Fields) (vols : Volumes)
      → IsHere n (add_queued o vols) ↔ ((name_in o ≡ n) ⊎ IsHere n vols)
  unfolding add_queued
  add_queued-IsHere none vols = no_name (IsHere n vols)
  add_queued-IsHere (some add) vols =
      if_named (IsHere n) (text_at "name" add) vols _ (put-IsHere (text_at "name" add) _ vols)

  add_queued-IsInSpec :
      (o : Option Fields) (vols : Volumes)
      → IsInSpec n (add_queued o vols) ↔ ((name_in o ≡ n) ⊎ IsInSpec n vols)
  unfolding add_queued queued_state
  add_queued-IsInSpec none vols = no_name (IsInSpec n vols)
  add_queued-IsInSpec (some add) vols =
      if_named (IsInSpec n) (text_at "name" add) vols _
        (put-IsInSpec (text_at "name" add) _ vols refl)

  add_status-IsHere :
      (v : Json) (vols : Volumes) → IsHere n (add_status v vols) ↔ ((name_of v ≡ n) ⊎ IsHere n vols)
  unfolding add_status
  add_status-IsHere (object m) vols =
      if_named (IsHere n) (text_at "name" m) vols _ (put-IsHere (text_at "name" m) _ vols)
  add_status-IsHere (string t) vols = no_name (IsHere n vols)
  add_status-IsHere (flag b) vols = no_name (IsHere n vols)
  add_status-IsHere other vols = no_name (IsHere n vols)

  -- A status says how far a volume is, not whether it is desired.
  add_status-IsInSpec :
      (v : Json) (vols : Volumes) → IsInSpec n (add_status v vols) ↔ IsInSpec n vols
  unfolding add_status
  add_status-IsInSpec (object m) vols =
      let x = text_at "name" m in
      if_cases (λ v. IsInSpec n v ↔ IsInSpec n vols) (is_empty x) vols _ (λ e. (λ h. h, λ h. h))
        (λ e. (
          λ h. ground (
            arith,
            find-put ◌==◌ ==_iff x n
                (record (state_of (find ◌==◌ x vols)) { phase = text_at "phase" m }) vols,
            ==_iff x n,
          ),
          λ h. ground (
            arith,
            find-put ◌==◌ ==_iff x n
                (record (state_of (find ◌==◌ x vols)) { phase = text_at "phase" m }) vols,
            ==_iff x n,
          ),
        ))
  add_status-IsInSpec (string t) vols = (λ h. h, λ h. h)
  add_status-IsInSpec (flag b) vols = (λ h. h, λ h. h)
  add_status-IsInSpec other vols = (λ h. h, λ h. h)

  -- A loop over values, of which each may add its name.
  pub each-adds :
      (P : Volumes → Type 0) (f : Json → Text) (step : Json → Volumes → Volumes)
      → ((v : Json) (vols : Volumes) → P (step v vols) ↔ ((f v ≡ n) ⊎ P vols))
      → (vs : List Json) (vols : Volumes) → P (each step vs vols) ↔ (Any (λ v. f v ≡ n) vs ⊎ P vols)
  each-adds P f step one [] vols = (inr, elim [ inl m ↦ absurd m | inr h ↦ h ])
  each-adds P f step one (v ∷ vs) vols =
      let (to, from) = each-adds P f step one vs (step v vols) in
      let (to1, from1) = one v vols in
      (
        λ h. elim (to h) [
          | inl m ↦ inl (inr m)
          | inr k ↦ elim (to1 k) [ inl e ↦ inl (inl e) | inr q ↦ inr q ]
        ],
        elim [
          | inl (inl e) ↦ from (inr (from1 (inl e)))
          | inl (inr m) ↦ from (inl m)
          | inr q ↦ from (inr (from1 (inr q)))
        ],
      )

  pub each_same :
      (P : Volumes → Type 0) (step : Json → Volumes → Volumes)
      → ((v : Json) (vols : Volumes) → P (step v vols) ↔ P vols)
      → (vs : List Json) (vols : Volumes) → P (each step vs vols) ↔ P vols
  each_same P step one [] vols = (λ h. h, λ h. h)
  each_same P step one (v ∷ vs) vols =
      let (to, from) = each_same P step one vs (step v vols) in
      let (to1, from1) = one v vols in (λ h. to1 (to h), λ h. from (from1 h))

  nothing-IsHere : IsHere n [] → ⊥
  unfolding find
  nothing-IsHere h = absurd (ground (arith, h))

  nothing-IsInSpec : IsInSpec n [] → ⊥
  unfolding find
  nothing-IsInSpec h = absurd (ground (arith, h))

  -- A loop over the volumes of the specification, then one over the requests.
  IsDesired-by :
      (P : Volumes → Type 0)
      → (P [] → ⊥)
      → ((v : Json) (vols : Volumes) → P (add_spec v vols) ↔ ((name_of v ≡ n) ⊎ P vols))
      → ((o : Option Fields) (vols : Volumes) → P (add_queued o vols) ↔ ((name_in o ≡ n) ⊎ P vols))
      → (vm : Vm) → P (vm_volumes vm) ↔ IsDesired n vm
  unfolding vm_volumes IsDesired
  IsDesired-by P start spec queued vm =
      let before = each add_spec vm.volumes [] in
      let (to, from) =
        each-adds P queued_name (λ r. add_queued (added_by r)) (λ r. queued (added_by r))
          vm.requests before in
      let (to1, from1) = each-adds P name_of add_spec spec vm.volumes [] in
      (
        λ h. elim (to h) [
          | inl m ↦ inl m
          | inr k ↦ elim (to1 k) [ inl m ↦ inr m | inr q ↦ absurd (start q) ]
        ],
        elim [ inl m ↦ from (inl m) | inr m ↦ from (inr (from1 (inl m))) ],
      )

  pub vm_volumes-IsHere : (vm : Vm) → IsHere n (vm_volumes vm) ↔ IsDesired n vm
  vm_volumes-IsHere = IsDesired-by (IsHere n) nothing-IsHere add_spec-IsHere add_queued-IsHere

  pub vm_volumes-IsInSpec : (vm : Vm) → IsInSpec n (vm_volumes vm) ↔ IsDesired n vm
  vm_volumes-IsInSpec =
      IsDesired-by (IsInSpec n) nothing-IsInSpec add_spec-IsInSpec add_queued-IsInSpec
