-- ===== src/Volumes/Teardown/Pruned.antt =====
-- Which host claims a whole pruning of the storage slice deletes.
use vcluster_private_cloud_c.Go.{Library}
use vcluster_private_cloud_c.Prelude.{◌≡◌, ap, true, List, [], ◌∷◌, ◌++◌, All, All-append, ◌∙◌}
use vcluster_private_cloud_c.Pass.Prune.{HostObject}
use vcluster_private_cloud_c.Storage.{StorageClass}
use vcluster_private_cloud_c.Tenant.{TenantCluster}
use vcluster_private_cloud_c.Volumes.{Call, remove_volume, Work, World}
use vcluster_private_cloud_c.Volumes.Calls.{Steady-refl, append_assoc, every}
use vcluster_private_cloud_c.Volumes.Orphans.Removed.{remove_orphan_vm_volumes-calls}
use vcluster_private_cloud_c.Volumes.Teardown.{
  teardown_all, drop_orphans, sweep_orphans, drop_classes, prune_storage,
}
use vcluster_private_cloud_c.Volumes.Teardown.Unplugged.{
  IsSafe, Safe, teardown_all-Safe, drop_orphans-Safe, drop_classes-Safe,
}

module _ (lib : Library) (tc : TenantCluster) (w : World) where
  sweep_orphans-Safe :
      (s0 s : Work) → Safe lib tc w s0 s → Safe lib tc w s0 (sweep_orphans lib tc w s)
  unfolding sweep_orphans Safe IsSafe
  sweep_orphans-Safe s0 s h =
      let Q = IsSafe lib tc s0.storage.vms in
      let (added, (log, calls)) =
        remove_orphan_vm_volumes-calls lib w
          (λ l. (added : List Call) × ((l ≡ s0.calls ++ added) × All Q added)) s.storage.vms
          (record { clean = true; calls = s.calls; reports = [] })
          (every _
            (λ m.
              every _
                (λ v o l (more, (e, q)). (
                  more ++ remove_volume m.0 v.0 ∷ [],
                  (
                    ap (λ x. x ++ remove_volume m.0 v.0 ∷ []) e
                        ∙ append_assoc s0.calls more (remove_volume m.0 v.0 ∷ []),
                    All-append Q more (remove_volume m.0 v.0 ∷ []) q (tt, tt),
                  ),
                ))
                m.1)
            s.storage.vms)
          (h.added, (h.log, h.calls)) in
      record { storage = h.storage; added = added; log = log; calls = calls; wants = h.wants }

  -- What is left after the teardown of the claims that are being deleted.
  pub prune_rest-Safe :
      (s0 s : Work) (scs : List StorageClass) (objs : List HostObject)
      → Safe lib tc w s0 s
      → Safe lib tc w s0
          (drop_classes lib tc w scs (sweep_orphans lib tc w (drop_orphans lib tc w objs s)))
  prune_rest-Safe s0 s scs objs h =
      drop_classes-Safe lib tc w s0 scs _
        (sweep_orphans-Safe s0 _ (drop_orphans-Safe lib tc w s0 objs s h))

  -- Every host claim that the pruning deletes carries the tenant's ownership labels, and no
  -- machine of the listing that the storage slice works with has its volume.
  pub prune_storage-IsSafe :
      (s : Work)
      → (added : List Call) × (((prune_storage lib tc w s).calls ≡ s.calls ++ added)
          × All (IsSafe lib tc s.storage.vms) added)
  unfolding prune_storage Safe
  prune_storage-IsSafe s =
      let s1 = teardown_all lib tc w s.storage.deleting s in
      let h1 = teardown_all-Safe lib tc w s s.storage.deleting s (Steady-refl _ s) in
      let s2 = drop_orphans lib tc w s1.storage.host_pvcs s1 in
      let h = prune_rest-Safe s s1 s2.storage.guest_scs s1.storage.host_pvcs h1 in
      (h.added, (h.log, h.calls))
