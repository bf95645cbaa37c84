-- ===== src/Volumes/Orphans/Removed.antt =====
-- Which volumes the sweep of orphaned volumes removes.
use vcluster_private_cloud_c.Go.{Library}
use vcluster_private_cloud_c.KubeVirt.{VolumeState, Volumes, Vms}
use vcluster_private_cloud_c.Pass.Apply.{absent}
use vcluster_private_cloud_c.Pass.Listing.{ApiError}
use vcluster_private_cloud_c.Prelude.{
  ◌≡◌, inl, inr, sym, subst, ap, All-imp, All-self, true, Option, none, some, List, [], ◌∷◌, ◌++◌,
  Text, All, All-append, Any, Any-imp, Bool-cases,
}
use vcluster_private_cloud_c.Volumes.{World, Call, remove_volume}
use vcluster_private_cloud_c.Volumes.Orphans.{
  Sweep, is_ours, report_if, remove_orphan, sweep_volume, sweep_volumes, remove_orphan_vm_volumes,
}
use vcluster_private_cloud_c.Volumes.Orphans.Swept.{Reply-cases}

module _ (lib : Library) (w : World) where
  -- One of this program's volumes, desired in the machine, whose claim was found missing.
  pub IsOrphan : Text × VolumeState → Type 0
  IsOrphan v =
      (is_ours lib v.0 v.1 ≡ true)
      × ((v.1.in_spec ≡ true) × ((log : List Call) × (w.claim_at log v.1.claim ≡ absent)))

  -- What holds of the calls issued, and goes on to hold with one more removal of an orphan.
  module _ (K : List Call → Type 0) where
    abbrev pub Goes : Text → Text × VolumeState → Type 0
    Goes vm v = IsOrphan v → (log : List Call) → K log → K (log ++ remove_volume vm v.0 ∷ [])

    report_if-calls :
        (name : Text) (o : Option ApiError) (s : Sweep) → K s.calls → K (report_if name o s).calls
    unfolding report_if
    report_if-calls name none s h = h
    report_if-calls name (some e) s h = h

    sweep_volume-calls :
        (vm : Text) (v : Text × VolumeState) (s : Sweep)
        → Goes vm v
        → K s.calls
        → K (sweep_volume lib w vm v s).calls
    unfolding sweep_volume remove_orphan IsOrphan
    sweep_volume-calls vm (name, st) s k h = elim (Bool-cases (is_ours lib name st)) [
      | inr e ↦ rw (sweep_volume, e) h
      | inl e ↦ elim (Reply-cases (w.claim_at s.calls st.claim)) [
        | inl (a, q) ↦ rw (sweep_volume, e, q) h
        | inr (inr (x, q)) ↦ rw (sweep_volume, e, q) h
        | inr (inl q) ↦ elim (Bool-cases st.in_spec) [
          | inr off ↦ rw (sweep_volume, e, q, remove_orphan, off) h
          | inl on ↦
              rw (sweep_volume, e, q, remove_orphan, on)
                (report_if-calls name _ _ (k (e, (on, (s.calls, q))) s.calls h))
        ]
      ]
    ]

    sweep_volumes-calls :
        (vm : Text) (vols : Volumes) (s : Sweep)
        → All (Goes vm) vols
        → K s.calls
        → K (sweep_volumes lib w vm vols s).calls
    unfolding sweep_volumes
    sweep_volumes-calls vm [] s k h = h
    sweep_volumes-calls vm (v ∷ vols) s (now, k) h =
        sweep_volumes-calls vm vols _ k (sweep_volume-calls vm v s now h)

    pub remove_orphan_vm_volumes-calls :
        (vms : Vms) (s : Sweep)
        → All (λ m. All (Goes m.0) m.1) vms
        → K s.calls
        → K (remove_orphan_vm_volumes lib w vms s).calls
    unfolding remove_orphan_vm_volumes
    remove_orphan_vm_volumes-calls [] s k h = h
    remove_orphan_vm_volumes-calls ((vm, vols) ∷ vms) s (now, k) h =
        remove_orphan_vm_volumes-calls vms _ k (sweep_volumes-calls vm vols s now h)

  -- Only orphans of the listed machines are removed, whichever calls were issued before.
  pub Removes : Vms → Call → Type 0
  Removes vms c = elim c [
    | remove_volume vm name ↦ Any (λ m. (m.0 ≡ vm) × Any (λ v. (v.0 ≡ name) × IsOrphan v) m.1) vms
    | _ ↦ ⊥
  ]

  -- The sweep, begun with no call issued, issues only RemoveVolume calls, each for a volume of a
  -- listed machine that is desired there, whose name derives from its claim, and whose claim the
  -- uncached reader found missing.
  pub remove_orphan_vm_volumes-Removes :
      (vms : Vms)
      → All
          (Removes vms)
          (remove_orphan_vm_volumes lib w vms
            (record { clean = true; calls = []; reports = [] })).calls
  unfolding Removes
  remove_orphan_vm_volumes-Removes vms =
      remove_orphan_vm_volumes-calls (All (Removes vms)) vms _
        (All-imp
          (λ m listed.
            All-imp
              (λ v there orphan log h. All-append (Removes vms) log (remove_volume m.0 v.0 ∷ []) h (
                Any-imp
                    (λ y e. (
                      ap (λ z. z.0) e,
                      subst (λ z. Any (λ x. (x.0 ≡ v.0) × IsOrphan x) z.1) (sym e)
                          (Any-imp (λ x q. (ap (λ z. z.0) q, subst IsOrphan (sym q) orphan)) m.1
                            there),
                    ))
                    vms listed,
                tt,
              ))
              m.1 (All-self m.1))
          vms (All-self vms))
        tt
