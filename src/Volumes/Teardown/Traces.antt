-- ===== src/Volumes/Teardown/Traces.antt =====
-- The traces of a guest's claim, and that they stay gone.
use vcluster_private_cloud_c.Go.{Library}
use vcluster_private_cloud_c.Ownership.{owned_by}
use vcluster_private_cloud_c.Prelude.{
  ◌≡◌, inl, inr, subst, ap, ◌∙◌, true, false, none, some, List, ◌∷◌, ◌++◌, Text, ◌==◌, find,
  Option-cases,
}
use vcluster_private_cloud_c.Storage.{GuestPvc, host_pvc_name, guest_pv_name, volume_name}
use vcluster_private_cloud_c.Tenant.{TenantCluster}
use vcluster_private_cloud_c.Volumes.{Call, delete_claim, delete_pv, StorageState, World, error_of}
use vcluster_private_cloud_c.Volumes.Calls.{append_assoc}
use vcluster_private_cloud_c.Volumes.Teardown.{named, is_attached}
use vcluster_private_cloud_c.Volumes.Teardown.Unplugged.{Out}

module _ (w : World) where
  -- The call was issued, and answered without an error; it may have found nothing to delete.
  unfoldable pub Granted : Call → List Call → Type 0
  Granted c calls =
      (before : List Call) × ((after : List Call) × ((calls ≡ before ++ c ∷ after)
          × (error_of (w.answer before c) ≡ none)))

  pub Granted-grow :
      (c : Call) (calls more : List Call) → Granted c calls → Granted c (calls ++ more)
  unfolding Granted
  Granted-grow c calls more (before, (after, (e, q))) =
      (before, (after ++ more, (ap (λ l. l ++ more) e ∙ append_assoc before (c ∷ after) more, q)))

  -- The host claim of that name, if one was listed and is the tenant's.
  unfoldable pub HostGone : TenantCluster → Text → StorageState → List Call → Type 0
  HostGone tc host_name st calls = elim (named host_name st.host_pvcs) [
    | none ↦ Unit
    | some obj ↦ owned_by obj.labels tc ≡ true → Granted (delete_claim obj) calls
  ]

  -- The guest's volume, if it was listed.
  unfoldable pub PvGone : Text → StorageState → List Call → Type 0
  PvGone pv_name st calls = elim (find ◌==◌ pv_name st.guest_pvs) [
    | none ↦ Unit
    | some pv ↦ Granted (delete_pv pv_name) calls
  ]

module _ (lib : Library) (tc : TenantCluster) (w : World) where
  -- Every trace of a guest's claim is gone: no attachment references its volume, no machine has
  -- it, and the deletions of its host claim and of its guest volume have succeeded.
  unfoldable pub Gone : StorageState → List Call → GuestPvc → Type 0
  Gone st calls pvc =
      let host_name = host_pvc_name lib tc pvc.meta.uid in
      let pv_name = guest_pv_name pvc.meta.uid in
      (is_attached pv_name st.attachments ≡ false)
      × (Out (volume_name lib host_name) st.vms
          × (HostGone w tc host_name st calls × PvGone w pv_name st calls))

  HostGone-grow :
      (host_name : Text) (st : StorageState) (calls more : List Call)
      → HostGone w tc host_name st calls
      → HostGone w tc host_name st (calls ++ more)
  unfolding HostGone
  HostGone-grow host_name st calls more h = elim (Option-cases (named host_name st.host_pvcs)) [
    | inl e ↦ rw (HostGone, e) tt
    | inr (obj, e) ↦
        let k : owned_by obj.labels tc ≡ true → Granted w (delete_claim obj) calls =
          subst
            (λ o. elim o [
              | none ↦ Unit
              | some x ↦ owned_by x.labels tc ≡ true → Granted w (delete_claim x) calls
            ])
            e h in
        rw (HostGone, e) (λ q. Granted-grow w (delete_claim obj) calls more (k q))
  ]

  PvGone-grow :
      (pv_name : Text) (st : StorageState) (calls more : List Call)
      → PvGone w pv_name st calls
      → PvGone w pv_name st (calls ++ more)
  unfolding PvGone
  PvGone-grow pv_name st calls more h = elim (Option-cases (find ◌==◌ pv_name st.guest_pvs)) [
    | inl e ↦ rw (PvGone, e) tt
    | inr (pv, e) ↦
        let k : Granted w (delete_pv pv_name) calls =
          subst (λ o. elim o [ none ↦ Unit | some x ↦ Granted w (delete_pv pv_name) calls ]) e h in
        rw (PvGone, e) (Granted-grow w (delete_pv pv_name) calls more k)
  ]

  pub Gone-grow :
      (st : StorageState) (pvc : GuestPvc) (calls more : List Call)
      → Gone st calls pvc
      → Gone st (calls ++ more) pvc
  unfolding Gone
  Gone-grow st pvc calls more (free, (out, (host, pv))) = (
    free,
    (
      out,
      (
        HostGone-grow (host_pvc_name lib tc pvc.meta.uid) st calls more host,
        PvGone-grow (guest_pv_name pvc.meta.uid) st calls more pv,
      ),
    ),
  )
