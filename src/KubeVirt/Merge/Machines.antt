-- ===== src/KubeVirt/Merge/Machines.antt =====
-- The merged view of the machines and instances of a namespace.
use vcluster_private_cloud_c.KubeVirt.{
  Json, Volumes, Vms, Vm, Vmi, vm_volumes, vms_of, vmis_of, add_vmi, add_status, each, vms,
}
use vcluster_private_cloud_c.KubeVirt.Merge.{
  each, Volumes, Json, Vm, name_of, IsHere, IsInSpec, IsDesired, each-adds, each_same,
  add_status-IsHere, add_status-IsInSpec, vm_volumes-IsHere, vm_volumes-IsInSpec,
}
use vcluster_private_cloud_c.Pass.Listing.{items}
use vcluster_private_cloud_c.Prelude.{
  subst, ◌≡◌, ◌≢◌, ◌↔◌, ◌⊎◌, inl, inr, refl, ◌∙◌, false, Option, none, some, List, [], ◌∷◌, ◌++◌,
  Text, ◌==◌, ==_iff, ==_refl, find, put, find-put, All, Any, Bool-cases, Option-cases, arith,
  if◌then◌else◌,
}

-- No two machines have one name, as within a namespace.
abbrev pub Distinct : List Vm → Type 0
Distinct [] = Unit
Distinct (vm ∷ ms) = All (λ v. v.name ≢ vm.name) ms × Distinct ms

-- The statuses that the instances of one name report.
unfoldable pub reported : Text → List Vmi → List Json
reported name [] = []
reported name (vmi ∷ vmis) =
    let rest = reported name vmis in if vmi.name == name then vmi.statuses ++ rest else rest

vms_of-other :
    (name : Text) (ms : List Vm) (out : Vms)
    → All (λ v. v.name ≢ name) ms
    → find ◌==◌ name (vms_of ms out) ≡ find ◌==◌ name out
unfolding vms_of
vms_of-other name [] out h = refl
vms_of-other name (vm ∷ ms) out (differs, h) = ground (
  arith,
  vms_of-other name ms (put ◌==◌ vm.name (vm_volumes vm) out) h,
  find-put ◌==◌ ==_iff vm.name name (vm_volumes vm) out,
  ==_iff vm.name name,
  differs,
)

vms_of-member :
    (vm : Vm) (ms : List Vm) (out : Vms)
    → Distinct ms
    → Any (λ v. v ≡ vm) ms
    → find ◌==◌ vm.name (vms_of ms out) ≡ some (vm_volumes vm)
unfolding vms_of
vms_of-member vm [] out d m = absurd m
vms_of-member vm (v ∷ ms) out (others, d) (inl e) =
    let there = find ◌==◌ v.name (vms_of ms (put ◌==◌ v.name (vm_volumes v) out)) in
    let head : there ≡ some (vm_volumes v) = ground (
      arith,
      vms_of-other v.name ms (put ◌==◌ v.name (vm_volumes v) out) others,
      find-put ◌==◌ ==_iff v.name v.name (vm_volumes v) out,
      ==_refl v.name,
    ) in
    subst
      (λ w. find ◌==◌ w.name (vms_of ms (put ◌==◌ v.name (vm_volumes v) out)) ≡ some (vm_volumes w))
      e head
vms_of-member vm (v ∷ ms) out (others, d) (inr m) = vms_of-member vm ms _ d m

each-append :
    (step : Json → Volumes → Volumes) (xs ys : List Json) (vols : Volumes)
    → each step (xs ++ ys) vols ≡ each step ys (each step xs vols)
each-append step [] ys vols = refl
each-append step (x ∷ xs) ys vols = each-append step xs ys (step x vols)

add_vmi-other :
    (name : Text) (vmi : Vmi) (out : Vms)
    → (vmi.name == name) ≡ false
    → find ◌==◌ name (add_vmi vmi out) ≡ find ◌==◌ name out
unfolding add_vmi
add_vmi-other name vmi out differs = elim (Option-cases (find ◌==◌ vmi.name out)) [
  | inl e ↦ rw (add_vmi, e) refl
  | inr (vols, e) ↦
      rw (add_vmi, e)
        (ground (
          arith,
          find-put ◌==◌ ==_iff vmi.name name (each add_status vmi.statuses vols) out,
          differs,
        ))
]

-- Of a machine that is listed, the instances of its name change the volumes by their statuses.
vmis_of-listed :
    (name : Text) (vmis : List Vmi) (out : Vms) (vols : Volumes)
    → find ◌==◌ name out ≡ some vols
    → find ◌==◌ name (vmis_of vmis out) ≡ some (each add_status (reported name vmis) vols)
unfolding vmis_of reported add_vmi
vmis_of-listed name [] out vols e = e
vmis_of-listed name (vmi ∷ vmis) out vols e = elim (Bool-cases (vmi.name == name)) [
  | inl same ↦
      let here : find ◌==◌ vmi.name out ≡ some vols = ground (arith, ==_iff vmi.name name, e) in
      rw (same, add_vmi, here, each-append add_status vmi.statuses (reported name vmis) vols)
        (vmis_of-listed name vmis _ _ (
          ground (
            arith,
            find-put ◌==◌ ==_iff vmi.name name (each add_status vmi.statuses vols) out,
            same,
          )))
  | inr differs ↦
      rw differs
        (vmis_of-listed name vmis (add_vmi vmi out) vols (add_vmi-other name vmi out differs ∙ e))
]

-- What the merged view says of the volume `n` of a machine.
pub Reports : Text → Vm → List Vmi → Option Volumes → Type 0
Reports n vm instances none = ⊥
Reports n vm instances (some vols) =
    (IsHere n vols ↔ (Any (λ v. name_of v ≡ n) (reported vm.name instances) ⊎ IsDesired n vm))
    × (IsInSpec n vols ↔ IsDesired n vm)

abbrev pub volumes_at : Text → Option Vms → Option Volumes
volumes_at name none = none
volumes_at name (some out) = find ◌==◌ name out

module _ (n : Text) (named : n ≢ []) where
  -- When both listings succeed and no two machines have one name, the merged view has an entry
  -- for every listed machine. In it a volume of a name that is not empty is found exactly if the
  -- machine's specification names it, a queued request adds it, or an instance of the machine's
  -- name reports a status of it; and it counts as desired exactly in the first two cases.
  pub vms-Reports :
      (machines : List Vm) (instances : List Vmi) (vm : Vm)
      → Distinct machines
      → Any (λ v. v ≡ vm) machines
      → Reports n vm instances (volumes_at vm.name (vms (items machines) (items instances)))
  unfolding vms Reports
  vms-Reports machines instances vm d m =
      let listed = vms_of-member vm machines [] d m in
      let seen = reported vm.name instances in
      let (here, there) =
        each-adds n named (IsHere n) name_of add_status (add_status-IsHere n named) seen
          (vm_volumes vm) in
      let (desired, back) = vm_volumes-IsHere n named vm in
      let (kept, same) =
        each_same n named (IsInSpec n) add_status (add_status-IsInSpec n named) seen
          (vm_volumes vm) in
      let (spec, unspec) = vm_volumes-IsInSpec n named vm in
      rw (vmis_of-listed vm.name instances (vms_of machines []) (vm_volumes vm) listed) (
        (
          λ h. elim (here h) [ inl q ↦ inl q | inr q ↦ inr (desired q) ],
          elim [ inl q ↦ there (inl q) | inr q ↦ there (inr (back q)) ],
        ),
        (λ h. spec (kept h), λ h. same (unspec h)),
      )
