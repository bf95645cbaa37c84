-- ===== src/Volumes/Orphans/Swept.antt =====
-- What the sweep of orphaned volumes finds, and what it removes.
use vcluster_private_cloud_c.Go.{Library}
use vcluster_private_cloud_c.KubeVirt.{VolumeState, Volumes, Vms}
use vcluster_private_cloud_c.Pass.Apply.{Reply, have, absent, error}
use vcluster_private_cloud_c.Pass.Listing.{ApiError}
use vcluster_private_cloud_c.Prelude.{
  ◌≡◌, ◌↔◌, ◌⊎◌, inl, inr, refl, sym, subst, ap, Bool, true, false, Option, none, some, List, [],
  ◌∷◌, Text, All, Bool-cases, if_cases, arith,
}
use vcluster_private_cloud_c.Volumes.{World, Call}
use vcluster_private_cloud_c.Volumes.Orphans.{
  Sweep, is_ours, report_if, remove_orphan, sweep_volume, sweep_volumes, remove_orphan_vm_volumes,
}

pub Reply-cases :
    {A : Type 0} (r : Reply A)
    → ((a : A) × (r ≡ have a)) ⊎ ((r ≡ absent) ⊎ ((e : ApiError) × (r ≡ error e)))
Reply-cases (have a) = inl (a, refl)
Reply-cases absent = inr (inl refl)
Reply-cases (error e) = inr (inr (e, refl))

abbrev pub is_there : {A : Type 0} → Reply A → Bool
is_there (have a) = true
is_there absent = false
is_there (error e) = false

module _ (lib : Library) (w : World) where
  -- The volume is not one that this program added, or its claim is found, after these calls.
  unfoldable pub Fine : List Call → Text × VolumeState → Type 0
  Fine log v = is_ours lib v.0 v.1 ≡ true → is_there (w.claim_at log v.1.claim) ≡ true

  -- All volumes of all machines are.
  unfoldable pub AllFine : List Call → Vms → Type 0
  AllFine log = All (λ m. All (Fine log) m.1)

  report_if-clean :
      (name : Text) (o : Option ApiError) (s : Sweep) → (report_if name o s).clean ≡ s.clean
  unfolding report_if
  report_if-clean name none s = refl
  report_if-clean name (some e) s = refl

  remove_orphan-clean :
      (vm name : Text) (st : VolumeState) (s : Sweep) → (remove_orphan w vm name st s).clean ≡ false
  unfolding remove_orphan
  remove_orphan-clean vm name st s =
      if_cases (λ (t : Sweep). t.clean ≡ false) st.in_spec _ _ (λ e. report_if-clean name _ _)
        (λ e. refl)

  -- A volume that is fine is passed over; any other ends the hope for a clean sweep.
  passed_over :
      (vm : Text) (v : Text × VolumeState) (s : Sweep)
      → Fine s.calls v
      → sweep_volume lib w vm v s ≡ s
  unfolding sweep_volume Fine
  passed_over vm (name, st) s fine = elim (Bool-cases (is_ours lib name st)) [
    | inr e ↦ rw (sweep_volume, e) refl
    | inl e ↦ elim (Reply-cases (w.claim_at s.calls st.claim)) [
      | inl (a, q) ↦ rw (sweep_volume, e, q) refl
      | inr (inl q) ↦ absurd (ground (arith, fine e, q))
      | inr (inr (x, q)) ↦ absurd (ground (arith, fine e, q))
    ]
  ]

  only-Fine :
      (vm : Text) (v : Text × VolumeState) (s : Sweep)
      → (sweep_volume lib w vm v s).clean ≡ true
      → Fine s.calls v
  unfolding Fine sweep_volume
  only-Fine vm (name, st) s h e = elim (Reply-cases (w.claim_at s.calls st.claim)) [
    | inl (a, q) ↦ rw q refl
    | inr (inl q) ↦
        let lost : (sweep_volume lib w vm (name, st) s).clean ≡ false =
          rw (sweep_volume, e, q) (remove_orphan-clean vm name st s) in
        absurd (ground (arith, lost, h))
    | inr (inr (x, q)) ↦
        let lost : (sweep_volume lib w vm (name, st) s).clean ≡ false =
          rw (sweep_volume, e, q) refl in
        absurd (ground (arith, lost, h))
  ]

  sweep_volumes-kept :
      (vm : Text) (vols : Volumes) (s : Sweep)
      → All (Fine s.calls) vols
      → sweep_volumes lib w vm vols s ≡ s
  unfolding sweep_volumes
  sweep_volumes-kept vm [] s fine = refl
  sweep_volumes-kept vm (v ∷ vols) s (f, fine) =
      rw (passed_over vm v s f) (sweep_volumes-kept vm vols s fine)

  sweep_volumes-Fine :
      (vm : Text) (vols : Volumes) (s : Sweep)
      → (sweep_volumes lib w vm vols s).clean ≡ true
      → (s.clean ≡ true) × All (Fine s.calls) vols
  unfolding sweep_volumes
  sweep_volumes-Fine vm [] s h = (h, tt)
  sweep_volumes-Fine vm (v ∷ vols) s h =
      let (now, rest) = sweep_volumes-Fine vm vols (sweep_volume lib w vm v s) h in
      let f = only-Fine vm v s now in
      let same = passed_over vm v s f in
      (subst (λ t. t.clean ≡ true) same now, (f, subst (λ t. All (Fine t.calls) vols) same rest))

  kept : (vms : Vms) (s : Sweep) → AllFine s.calls vms → remove_orphan_vm_volumes lib w vms s ≡ s
  unfolding remove_orphan_vm_volumes AllFine
  kept [] s fine = refl
  kept ((vm, vols) ∷ vms) s (f, fine) = rw (sweep_volumes-kept vm vols s f) (kept vms s fine)

  fine_if_clean :
      (vms : Vms) (s : Sweep)
      → (remove_orphan_vm_volumes lib w vms s).clean ≡ true
      → (s.clean ≡ true) × AllFine s.calls vms
  unfolding remove_orphan_vm_volumes AllFine
  fine_if_clean [] s h = (h, tt)
  fine_if_clean ((vm, vols) ∷ vms) s h =
      let (now, rest) = fine_if_clean vms (sweep_volumes lib w vm vols s) h in
      let (before, f) = sweep_volumes-Fine vm vols s now in
      let same = sweep_volumes-kept vm vols s f in
      (before, (f, subst (λ t. AllFine t.calls vms) same rest))

  -- The sweep ends clean exactly if it was clean before and the claim of every volume that this
  -- program added to a listed machine is found on the host; it then issues no call at all.
  pub remove_orphan_vm_volumes-clean_iff :
      (vms : Vms) (s : Sweep)
      → ((remove_orphan_vm_volumes lib w vms s).clean ≡ true
          ↔ ((s.clean ≡ true) × AllFine s.calls vms))
        × (AllFine s.calls vms → (remove_orphan_vm_volumes lib w vms s).calls ≡ s.calls)
  remove_orphan_vm_volumes-clean_iff vms s = (
    (fine_if_clean vms s, λ (c, f). subst (λ t. t.clean ≡ true) (sym (kept vms s f)) c),
    λ f. ap (λ t. t.calls) (kept vms s f),
  )
