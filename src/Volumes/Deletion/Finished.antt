-- ===== src/Volumes/Deletion/Finished.antt =====
-- What a finished storage teardown of a TenantCluster has done, and what any teardown does.
use vcluster_private_cloud_c.Go.{Library}
use vcluster_private_cloud_c.KubeVirt.{Vms}
use vcluster_private_cloud_c.Ownership.{owned_by}
use vcluster_private_cloud_c.Pass.Listing.{list_failed, no_match, Listing, items, ApiError}
use vcluster_private_cloud_c.Pass.Prune.{HostObject}
use vcluster_private_cloud_c.Prelude.{
  ◌∙◌, ◌≡◌, inl, inr, refl, sym, subst, ap, Bool, true, false, Option, none, some, List, [], ◌∷◌,
  ◌++◌, Text, ◌==◌, find, All, All-append, Option-cases, if_cases, option_cases, arith,
  if◌then◌else◌,
}
use vcluster_private_cloud_c.Storage.{volume_name}
use vcluster_private_cloud_c.Tenant.{TenantCluster}
use vcluster_private_cloud_c.Volumes.{World, Call, delete_claim, remove_volume, error_of}
use vcluster_private_cloud_c.Volumes.Deletion.{
  Teardown, Result, stopped, ended, is_carried, unplug_calls, failed, delete_host_claim,
  teardown_claim, teardown_claims, teardown_swept, storage_teardown,
}
use vcluster_private_cloud_c.Volumes.Orphans.{Sweep, remove_orphan_vm_volumes}
use vcluster_private_cloud_c.Volumes.Orphans.Removed.{remove_orphan_vm_volumes-calls}
use vcluster_private_cloud_c.Volumes.Orphans.Swept.{AllFine, remove_orphan_vm_volumes-clean_iff}
use vcluster_private_cloud_c.Volumes.Teardown.Traces.{Granted, Granted-grow}
use vcluster_private_cloud_c.Volumes.Teardown.Unplugged.{Out, IsSafe}
use vcluster_private_cloud_c.Volumes.Calls.{append_assoc, append_nil, every}

not_carried : (volume : Text) (vms : Vms) → is_carried volume vms ≡ false → Out volume vms
unfolding is_carried
not_carried volume [] e = tt
not_carried volume ((vm, vols) ∷ vms) e = elim (Option-cases (find ◌==◌ volume vols)) [
  | inl q ↦ (
    q,
    not_carried volume vms
        (subst (λ o. (elim o [ none ↦ is_carried volume vms | some st ↦ true ]) ≡ false) q e),
  )
  | inr (st, q) ↦
      let lost : true ≡ false =
        subst (λ o. (elim o [ none ↦ is_carried volume vms | some st ↦ true ]) ≡ false) q e in
      absurd (ground (arith, lost))
]

both_true : (a b : Bool) → (if a then b else false) ≡ true → (a ≡ true) × (b ≡ true)
both_true true b e = (refl, e)
both_true false b e = absurd (ground (arith, e))

-- The teardown ran to its end, and says that all is done.
abbrev pub IsDone : Result → Type 0
IsDone stopped = ⊥
IsDone (ended t) = t.done ≡ true

abbrev pub calls_of : Result → List Call
calls_of stopped = []
calls_of (ended t) = t.calls

abbrev pub listed : Option Vms → Vms
listed none = []
listed (some vms) = vms

module _ (lib : Library) (tc : TenantCluster) (w : World) (vms : Vms) where
  -- The claim is not the tenant's, or no machine has its volume and its deletion has succeeded.
  unfoldable pub Cleared : List Call → HostObject → Type 0
  Cleared calls obj =
      owned_by obj.labels tc ≡ true
      → Out (volume_name lib obj.name) vms × Granted w (delete_claim obj) calls

  -- What one step does: the calls go on, and it says that all is done only if its claim is cleared.
  record Step (s : Teardown) (obj : HostObject) (t : Teardown) : Type 0 where
    added : List Call
    log : t.calls ≡ s.calls ++ added
    safe : All (IsSafe lib tc vms) added
    cleared : t.done ≡ true → (s.done ≡ true) × Cleared t.calls obj

  plain_removals : (volume : Text) (ms : Vms) → All (IsSafe lib tc vms) (unplug_calls volume ms)
  unfolding unplug_calls IsSafe
  plain_removals volume [] = tt
  plain_removals volume ((vm, vols) ∷ ms) =
      let rest = plain_removals volume ms in
      option_cases (All (IsSafe lib tc vms)) (find ◌==◌ volume vols) (unplug_calls volume ms) _
        (λ e. rest)
        (λ st e.
          if_cases (All (IsSafe lib tc vms)) st.in_spec
            (remove_volume vm volume ∷ unplug_calls volume ms) (unplug_calls volume ms)
            (λ q. (tt, rest)) (λ q. rest))

  not_failed :
      (o : Option ApiError) (b : Bool)
      → (if failed o then false else b) ≡ true
      → (b ≡ true) × (o ≡ none)
  unfolding failed
  not_failed none b e = (e, refl)
  not_failed (some x) b e = absurd (ground (arith, e))

  teardown_claim-Step :
      (obj : HostObject) (s : Teardown) → Step s obj (teardown_claim lib tc w vms obj s)
  unfolding teardown_claim delete_host_claim Cleared IsSafe Granted
  teardown_claim-Step obj s =
      let volume = volume_name lib obj.name in
      if_cases (Step s obj) (owned_by obj.labels tc) _ s
        (λ owned.
          if_cases (Step s obj) (is_carried volume vms)
            (record { done = false; calls = s.calls ++ unplug_calls volume vms })
            (delete_host_claim lib tc w vms obj s)
            (λ q. record {
              added = unplug_calls volume vms;
              log = refl;
              safe = plain_removals volume vms;
              cleared = λ d. absurd (ground (arith, d));
            })
            (λ q. record {
              added = delete_claim obj ∷ [];
              log = refl;
              safe = ((owned, not_carried volume vms q), tt);
              cleared = λ d.
                  let (before, granted) =
                    not_failed (error_of (w.answer s.calls (delete_claim obj))) s.done d in
                  (before, λ o. (not_carried volume vms q, (s.calls, ([], (refl, granted)))));
            }))
        (λ foreign. record {
          added = [];
          log = sym (append_nil s.calls);
          safe = tt;
          cleared = λ d. (d, λ o. absurd (ground (arith, o, foreign)));
        })

  Cleared-grow :
      (calls more : List Call) (obj : HostObject) → Cleared calls obj → Cleared (calls ++ more) obj
  unfolding Cleared
  Cleared-grow calls more obj h owned =
      let (out, granted) = h owned in (out, Granted-grow w (delete_claim obj) calls more granted)

  record Steps (s : Teardown) (objs : List HostObject) (t : Teardown) : Type 0 where
    added : List Call
    log : t.calls ≡ s.calls ++ added
    safe : All (IsSafe lib tc vms) added
    cleared : t.done ≡ true → (s.done ≡ true) × All (Cleared t.calls) objs

  teardown_claims-Steps :
      (objs : List HostObject) (s : Teardown) → Steps s objs (teardown_claims lib tc w vms objs s)
  unfolding teardown_claims
  teardown_claims-Steps [] s = record {
    added = [];
    log = sym (append_nil s.calls);
    safe = tt;
    cleared = λ d. (d, tt);
  }
  teardown_claims-Steps (obj ∷ objs) s =
      let t = teardown_claim lib tc w vms obj s in
      let one = teardown_claim-Step obj s in
      let rest = teardown_claims-Steps objs t in
      record {
        added = one.added ++ rest.added;
        log =
            rest.log
            ∙ (ap (λ l. l ++ rest.added) one.log ∙ append_assoc s.calls one.added rest.added);
        safe = All-append (IsSafe lib tc vms) one.added rest.added one.safe rest.safe;
        cleared = λ d.
            let (now, others) = rest.cleared d in
            let (before, c) = one.cleared now in
            (
              before,
              (
                subst (λ l. Cleared l obj) (sym rest.log) (Cleared-grow t.calls rest.added obj c),
                others,
              ),
            );
      }

  -- The whole teardown, when the machines are known.
  swept_done :
      (objs : List HostObject)
      → (teardown_swept lib tc w vms objs).done ≡ true
      → All (Cleared (teardown_swept lib tc w vms objs).calls) objs
        × AllFine lib w (teardown_swept lib tc w vms objs).calls vms
  unfolding teardown_swept
  swept_done objs d =
      let s = teardown_claims lib tc w vms objs (record { done = true; calls = [] }) in
      let start : Sweep = record { clean = true; calls = s.calls; reports = [] } in
      let found = remove_orphan_vm_volumes lib w vms start in
      let (iff, kept) = remove_orphan_vm_volumes-clean_iff lib w vms start in
      let both : (found.clean ≡ true) × (s.done ≡ true) = both_true found.clean s.done d in
      let fine = (iff.0 both.0).1 in
      let same : s.calls ≡ found.calls = sym (kept fine) in
      (
        subst (λ l. All (Cleared l) objs) same
            (((teardown_claims-Steps objs (record { done = true; calls = [] })).cleared both.1).1),
        subst (λ l. AllFine lib w l vms) same fine,
      )

  swept-IsSafe :
      (objs : List HostObject) → All (IsSafe lib tc vms) (teardown_swept lib tc w vms objs).calls
  unfolding teardown_swept IsSafe
  swept-IsSafe objs =
      let Q = IsSafe lib tc vms in
      let s = teardown_claims lib tc w vms objs (record { done = true; calls = [] }) in
      let run = teardown_claims-Steps objs (record { done = true; calls = [] }) in
      remove_orphan_vm_volumes-calls lib w (All Q) vms
        (record { clean = true; calls = s.calls; reports = [] })
        (every _
          (λ m. every _ (λ v o l h. All-append Q l (remove_volume m.0 v.0 ∷ []) h (tt, tt)) m.1)
          vms)
        (subst (All Q) (sym run.log) run.safe)

module _ (lib : Library) (tc : TenantCluster) (w : World) where
  -- When the teardown of a deleted TenantCluster's storage says that all is done, every listed
  -- host claim of the tenant is in no listed machine and its deletion was issued and answered
  -- without an error, and the claim of every volume that this program added to a listed machine
  -- was still found by the uncached reader.
  pub storage_teardown-Finished :
      (hot : Bool) (objs : List HostObject) (machines : Option Vms)
      → IsDone (storage_teardown lib tc w hot (items objs) machines)
      → All
          (λ obj.
            owned_by obj.labels tc ≡ true
            → Out (volume_name lib obj.name) (listed machines)
              × Granted w
                  (delete_claim obj)
                  (calls_of (storage_teardown lib tc w hot (items objs) machines)))
          objs
        × (hot ≡ true
            → AllFine lib w
                (calls_of (storage_teardown lib tc w hot (items objs) machines))
                (listed machines))
  unfolding storage_teardown Cleared
  storage_teardown-Finished false [] machines d = (tt, λ e. absurd (ground (arith, e)))
  storage_teardown-Finished false (obj ∷ objs) machines d = absurd d
  storage_teardown-Finished true objs none d = absurd d
  storage_teardown-Finished true objs (some vms) d =
      let (cleared, fine) = swept_done lib tc w vms objs d in (cleared, λ e. fine)

  -- Whatever is listed and answered, the teardown deletes only host claims that carry the tenant's
  -- ownership labels and whose volume no listed machine has.
  pub storage_teardown-IsSafe :
      (hot : Bool) (claims : Listing HostObject) (machines : Option Vms)
      → All
          (IsSafe lib tc (listed machines))
          (calls_of (storage_teardown lib tc w hot claims machines))
  unfolding storage_teardown
  storage_teardown-IsSafe hot (no_match e) machines = tt
  storage_teardown-IsSafe hot (list_failed e) machines = tt
  storage_teardown-IsSafe false (items []) machines = tt
  storage_teardown-IsSafe false (items (obj ∷ objs)) machines = tt
  storage_teardown-IsSafe true (items objs) none = tt
  storage_teardown-IsSafe true (items objs) (some vms) = swept-IsSafe lib tc w vms objs
