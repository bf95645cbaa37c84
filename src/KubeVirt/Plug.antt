-- ===== src/KubeVirt/Plug.antt =====
-- internal/kubevirt/hotplug.go: the requests that plug and unplug a volume.
use vcluster_private_cloud_c.KubeVirt.{Json, Fields, string, flag, object, empty, field}
use vcluster_private_cloud_c.Prelude.{true, ◌++◌, Text, codes, is_empty, if◌then◌else◌}

-- A PUT of the client, by its path and body.
pub record Put : Type 0 where
  pub path : Text
  pub body : Json

put_request : Text → Text → Text → Fields → Put
put_request namespace vm verb body = record {
  path =
      codes "/apis/subresources.kubevirt.io/v1/namespaces/"
      ++ (namespace ++ (codes "/virtualmachines/" ++ (vm ++ (codes "/" ++ verb))));
  body = object body;
}

-- `disk`, whose serial is left out if it is empty.
disk_of : Text → Text → Fields
disk_of name serial =
    let bus = field "disk" (object (field "bus" (string (codes "scsi")) empty)) empty in
    field "name" (string name) (if is_empty serial then bus else field "serial" (string serial) bus)

-- `addVolumeOptions`
unfoldable pub add_options : Text → Text → Text → Fields
unfolding disk_of
add_options volume claim serial = field "name" (string volume) (
    field "disk" (object (disk_of volume serial)) (
      field "volumeSource"
        (object (
          field "persistentVolumeClaim"
            (object (field "claimName" (string claim) (field "hotpluggable" (flag true) empty)))
            empty))
        empty))

unfoldable pub add_volume : Text → Text → Text → Text → Text → Put
unfolding put_request
add_volume namespace vm volume claim serial =
    put_request namespace vm (codes "addvolume") (add_options volume claim serial)

unfoldable pub remove_volume : Text → Text → Text → Put
unfolding put_request
remove_volume namespace vm volume =
    put_request namespace vm (codes "removevolume") (field "name" (string volume) empty)
