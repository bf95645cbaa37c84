-- ===== src/Volumes/Install.antt =====
-- internal/syncer/storage_pass.go: the installation of the node plugin, and the storage slice's
-- writing half.
pub mod Sealed
use vcluster_private_cloud_c.Go.{Library}
use vcluster_private_cloud_c.Pass.Apply.{Reply, have, absent, error}
use vcluster_private_cloud_c.Pass.Finalizers.{ControllerUtil}
use vcluster_private_cloud_c.Prelude.{
  Bool, true, false, ◌&&◌, Option, none, some, List, [], ◌∷◌, Text, codes, ◌==◌, if◌then◌else◌,
}
use vcluster_private_cloud_c.Storage.Plugin.{
  Container, DaemonSet, NodePlugin, NodePluginImages, guest_node_plugin,
}
use vcluster_private_cloud_c.Tenant.{TenantCluster}
use vcluster_private_cloud_c.Volumes.{
  Work, World, Call, create_namespace, create_account, create_driver, create_daemon, update_daemon,
  attempt, any_error, create_error, noted,
}
use vcluster_private_cloud_c.Volumes.Attach.{attach_all}
use vcluster_private_cloud_c.Volumes.Classes.{apply_guest_storage_classes}
use vcluster_private_cloud_c.Volumes.Provision.{provision_all}

-- What the guest answers to the Get calls for the driver and for the DaemonSet.
pub record Installed : Type 0 where
  pub driver_at : List Call → Reply Text
  pub daemon_at : List Call → Reply DaemonSet

-- The images are looked at only if there are two containers.
unfoldable pub same_images : NodePluginImages → List Container → Bool
same_images images [] = false
same_images images (a ∷ []) = false
same_images images (a ∷ b ∷ []) = a.image == images.node && b.image == images.registrar
same_images images (a ∷ b ∷ c ∷ cs) = false

abbrev pub upgraded : DaemonSet → DaemonSet → DaemonSet
upgraded live want = record want {
  name = live.name;
  namespace = live.namespace;
  labels = live.labels;
}

module _ (w : World) (images : NodePluginImages) (at : Installed) where
  -- The specification is replaced, and the metadata stays.
  apply_daemon : Reply DaemonSet → Work → Work
  unfolding same_images
  apply_daemon absent s =
      attempt w any_error (create_daemon (guest_node_plugin images).daemon_set) (λ t. t)
        (noted (codes "DaemonSet")) s
  apply_daemon (error e) s = noted (codes "DaemonSet") e s
  apply_daemon (have live) s =
      if same_images images live.containers
      then s
      else attempt w any_error (update_daemon (upgraded live (guest_node_plugin images).daemon_set))
          (λ t. t) (noted (codes "DaemonSet")) s

  -- Only a driver that is not there is created; another error of the Get call is passed over.
  apply_driver : Reply Text → Work → Work
  apply_driver absent s =
      attempt w create_error create_driver (λ t. t) (noted (codes "CSIDriver")) s
  apply_driver (error e) s = s
  apply_driver (have name) s = s

  pub apply_rest : Work → Work
  unfolding apply_daemon apply_driver
  apply_rest s =
      let s1 = attempt w create_error create_account (λ t. t) (noted (codes "ServiceAccount")) s in
      let s2 = apply_driver (at.driver_at s1.calls) s1 in apply_daemon (at.daemon_at s2.calls) s2

  -- Without the namespace nothing else is installed.
  unfoldable pub apply_guest_plugin : Work → Work
  unfolding apply_rest
  apply_guest_plugin s =
      if s.storage.plugin_wanted
      then attempt w create_error create_namespace apply_rest (noted (codes "Namespace")) s
      else s

  unfoldable pub apply_storage : Library → TenantCluster → ControllerUtil → Work → Work
  apply_storage lib tc util s =
      let s1 = apply_guest_storage_classes w (apply_guest_plugin s) in
      let s2 = provision_all lib tc w s1.storage.provisionable s1 in
      attach_all lib util w s2.storage.attachments s2
