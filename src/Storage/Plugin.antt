-- ===== src/Storage/Plugin.antt =====
-- internal/syncer/storage.go: what is installed into a guest for its nodes to mount volumes.
use vcluster_private_cloud_c.Meta.{Labels}
use vcluster_private_cloud_c.Prelude.{Bool, true, false, List, [], ◌∷◌, ◌++◌, Text, codes}
use vcluster_private_cloud_c.Storage.{
  driver_name, managed_by_label, managed_by_value, managed_labels,
}

abbrev pub guest_csi_namespace : Text
guest_csi_namespace = codes "vcluster-csi"

abbrev pub guest_csi_daemon_set : Text
guest_csi_daemon_set = codes "vcluster-csi-node"

pub record NodePluginImages : Type 0 where
  pub node : Text
  pub registrar : Text

-- `storagev1.CSIDriver`, with the fields that are set.
pub record CsiDriver : Type 0 where
  pub name : Text
  pub labels : Labels
  pub attach_required : Bool
  pub pod_info_on_mount : Bool
  pub storage_capacity : Bool
  pub fs_group_policy : Text
  pub volume_lifecycle_modes : List Text

abbrev pub guest_csi_driver : CsiDriver
guest_csi_driver = record {
  name = driver_name;
  labels = managed_labels;
  attach_required = true;
  pod_info_on_mount = false;
  storage_capacity = false;
  fs_group_policy = codes "File";
  volume_lifecycle_modes = codes "Persistent" ∷ [];
}

-- The sources of a pod's volumes: a path of the node with its type, or what may hold a credential.
pub data VolumeSource : Type 0 where
  host_path : Text → Text → VolumeSource
  secret config_map projected : Text → VolumeSource

pub record Volume : Type 0 where
  pub name : Text
  pub source : VolumeSource

pub record VolumeMount : Type 0 where
  pub name : Text
  pub mount_path : Text
  pub bidirectional : Bool

-- A container. `field_env` are the variables set from a field of the pod.
pub record Container : Type 0 where
  pub name : Text
  pub image : Text
  pub args : List Text
  pub field_env : List (Text × Text)
  pub privileged : Bool
  pub mounts : List VolumeMount

pub record ServiceAccount : Type 0 where
  pub name : Text
  pub namespace : Text
  pub labels : Labels
  pub automount_token : Bool

-- The DaemonSet with its pod template. `tolerates_all` is a toleration of every taint.
pub record DaemonSet : Type 0 where
  pub name : Text
  pub namespace : Text
  pub labels : Labels
  pub selector : Labels
  pub template_labels : Labels
  pub service_account_name : Text
  pub automount_token : Bool
  pub priority_class_name : Text
  pub tolerates_all : Bool
  pub containers : List Container
  pub volumes : List Volume

pub record NodePlugin : Type 0 where
  pub namespace : Text
  pub namespace_labels : Labels
  pub account : ServiceAccount
  pub daemon_set : DaemonSet

unfoldable pub plugin_labels : Labels
plugin_labels = (managed_by_label, managed_by_value) ∷ ("app", guest_csi_daemon_set) ∷ []

unfoldable pub plugin_path : Text
plugin_path = codes "/var/lib/kubelet/plugins/" ++ driver_name

unfoldable pub csi_node : Text → Container
csi_node image = record {
  name = codes "csi-node";
  image = image;
  args = codes "csi-node" ∷ codes "--endpoint=unix:///csi/csi.sock" ∷ [];
  field_env = (codes "KUBE_NODE_NAME", codes "spec.nodeName") ∷ [];
  privileged = true;
  mounts =
      record { name = codes "plugin-dir"; mount_path = codes "/csi"; bidirectional = false }
      ∷ record {
        name = codes "kubelet-dir";
        mount_path = codes "/var/lib/kubelet";
        bidirectional = true;
      }
      ∷ record { name = codes "dev"; mount_path = codes "/dev"; bidirectional = false }
      ∷ [];
}

unfoldable pub registrar : Text → Container
unfolding plugin_path
registrar image = record {
  name = codes "registrar";
  image = image;
  args =
      codes "--csi-address=/csi/csi.sock"
      ∷ (codes "--kubelet-registration-path=" ++ (plugin_path ++ codes "/csi.sock"))
      ∷ [];
  field_env = [];
  privileged = false;
  mounts =
      record { name = codes "plugin-dir"; mount_path = codes "/csi"; bidirectional = false }
      ∷ record {
        name = codes "registration-dir";
        mount_path = codes "/registration";
        bidirectional = false;
      }
      ∷ [];
}

unfoldable pub plugin_volumes : List Volume
unfolding plugin_path
plugin_volumes =
    record { name = codes "plugin-dir"; source = host_path plugin_path (codes "DirectoryOrCreate") }
    ∷ record {
      name = codes "registration-dir";
      source = host_path (codes "/var/lib/kubelet/plugins_registry") (codes "Directory");
    }
    ∷ record {
      name = codes "kubelet-dir";
      source = host_path (codes "/var/lib/kubelet") (codes "Directory");
    }
    ∷ record { name = codes "dev"; source = host_path (codes "/dev") (codes "Directory") }
    ∷ []

unfoldable pub guest_node_plugin : NodePluginImages → NodePlugin
unfolding plugin_labels csi_node registrar plugin_volumes
guest_node_plugin images = record {
  namespace = guest_csi_namespace;
  namespace_labels = managed_labels;
  account = record {
    name = guest_csi_daemon_set;
    namespace = guest_csi_namespace;
    labels = managed_labels;
    automount_token = false;
  };
  daemon_set = record {
    name = guest_csi_daemon_set;
    namespace = guest_csi_namespace;
    labels = plugin_labels;
    selector = ("app", guest_csi_daemon_set) ∷ [];
    template_labels = plugin_labels;
    service_account_name = guest_csi_daemon_set;
    automount_token = false;
    priority_class_name = codes "system-node-critical";
    tolerates_all = true;
    containers = csi_node images.node ∷ registrar images.registrar ∷ [];
    volumes = plugin_volumes;
  };
}
