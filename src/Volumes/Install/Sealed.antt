-- ===== src/Volumes/Install/Sealed.antt =====
-- What the pods that are installed into a guest can reach.
use vcluster_private_cloud_c.Prelude.{◌≡◌, refl, true, false, inl, inr, ==_refl, All, Any, arith}
use vcluster_private_cloud_c.Storage.Plugin.{
  Volume, VolumeSource, host_path, secret, config_map, projected, DaemonSet, NodePluginImages,
  guest_node_plugin, csi_node, registrar, plugin_volumes,
}
use vcluster_private_cloud_c.Volumes.Install.{same_images}

-- A path of the node, and not what may hold a credential.
IsHostPath : VolumeSource → Type 0
IsHostPath (host_path path kind) = Unit
IsHostPath (secret name) = ⊥
IsHostPath (config_map name) = ⊥
IsHostPath (projected name) = ⊥

-- No volume of the pods may hold a credential, no token is mounted, and every mount of a
-- container is of a volume that is declared.
pub IsSealed : DaemonSet → Type 0
IsSealed ds =
    All (λ v. IsHostPath v.source) ds.volumes
    × ((ds.automount_token ≡ false)
        × All (λ c. All (λ m. Any (λ (v : Volume). v.name ≡ m.name) ds.volumes) c.mounts)
            ds.containers)

-- Whatever the images are, the pods that are installed into a guest hold no credential: their
-- volumes are paths of the node, neither they nor their account mount a token, and their
-- containers mount only those volumes. The next pass recognises their images, and leaves them.
pub guest_node_plugin-IsSealed :
    (images : NodePluginImages)
    → IsSealed (guest_node_plugin images).daemon_set
      × (((guest_node_plugin images).account.automount_token ≡ false)
          × (same_images images (guest_node_plugin images).daemon_set.containers ≡ true))
unfolding IsSealed guest_node_plugin csi_node registrar plugin_volumes IsHostPath same_images
guest_node_plugin-IsSealed images = (
  (
    (tt, (tt, (tt, (tt, tt)))),
    (
      refl,
      (
        (inl refl, (inr (inr (inl refl)), (inr (inr (inr (inl refl))), tt))),
        ((inl refl, (inr (inl refl), tt)), tt),
      ),
    ),
  ),
  (refl, ground (arith, ==_refl images.node, ==_refl images.registrar)),
)
