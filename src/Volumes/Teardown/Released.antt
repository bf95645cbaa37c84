-- ===== src/Volumes/Teardown/Released.antt =====
-- The pruning of the storage slice, followed by the release of finalizers.
use vcluster_private_cloud_c.Go.{Library}
use vcluster_private_cloud_c.Pass.Finalizers.{ControllerUtil, Updater, release_guest_finalizers}
use vcluster_private_cloud_c.Pass.Finalizers.Released.{Unwanted, release_guest_finalizers-Unwanted}
use vcluster_private_cloud_c.Pass.Gather.{ref_of}
use vcluster_private_cloud_c.Pass.{volume_claim}
use vcluster_private_cloud_c.Prelude.{◌≡◌, inl, inr, [], All, All-imp, arith}
use vcluster_private_cloud_c.Tenant.{TenantCluster}
use vcluster_private_cloud_c.Volumes.{Work, World}
use vcluster_private_cloud_c.Volumes.Teardown.{prune_storage}
use vcluster_private_cloud_c.Volumes.Teardown.Complete.{IsKept, prune_storage-Gone}
use vcluster_private_cloud_c.Volumes.Teardown.Traces.{Gone}

module _ (lib : Library) (tc : TenantCluster) (w : World) (util : ControllerUtil)
    (answer : Updater) where
  -- When the finalizers are released after the pruning, a guest claim that is being deleted is let
  -- go only once every trace of it is gone: no attachment references its volume, no listed machine
  -- has the volume, and the deletions of its host claim and of its guest volume have succeeded.
  pub release_guest_finalizers-Gone :
      (s : Work)
      → All
          (λ pvc.
            All
              (λ x.
                x.0 ≡ ref_of volume_claim pvc.meta
                → Gone lib tc w s.storage (prune_storage lib tc w s).calls pvc)
              (release_guest_finalizers util answer
                (record { state = (prune_storage lib tc w s).state; updated = [] })).updated)
          s.storage.deleting
  unfolding Unwanted IsKept
  release_guest_finalizers-Gone s =
      let t = prune_storage lib tc w s in
      All-imp
        (λ pvc outcome.
          All-imp
            (λ x unwanted e. elim outcome [
              | inl kept ↦ absurd (ground (arith, kept, unwanted.0.0, e))
              | inr gone ↦ gone
            ])
            (release_guest_finalizers util answer
              (record { state = t.state; updated = [] })).updated
            (release_guest_finalizers-Unwanted util answer t.state))
        s.storage.deleting (prune_storage-Gone lib tc w s)
