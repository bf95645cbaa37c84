-- ===== src/KubeVirt/Tests.antt =====
-- The volumes of machines at concrete values.
use vcluster_private_cloud_c.KubeVirt.{
  string, object, field, empty, add_spec, text_at, value_at, Vm, Vmi, vms, vm_volumes,
}
use vcluster_private_cloud_c.KubeVirt.Merge.Machines.{Reports, volumes_at, vms-Reports}
use vcluster_private_cloud_c.KubeVirt.Merge.Queued.{
  request_for, with_request, add_options-vm_volumes,
}
use vcluster_private_cloud_c.Pass.Listing.{items}
use vcluster_private_cloud_c.Prelude.{
  put, ◌≡◌, refl, inl, true, none, some, [], ◌∷◌, codes, ◌==◌, find, arith, if◌then◌else◌,
}

-- A machine with a system disk.
abbrev worker : Vm
worker = record {
  name = codes "worker-0";
  volumes = object (field "name" (string (codes "root")) empty) ∷ [];
  requests = [];
}

-- Its instance reports that disk, and a volume in the middle of an unplug.
abbrev instance_of : Vmi
instance_of = record {
  name = codes "worker-0";
  statuses =
      object (field "name" (string (codes "root")) (field "phase" (string (codes "Ready")) empty))
      ∷ object
          (field "name" (string (codes "csi-1")) (field "phase" (string (codes "Detaching")) empty))
      ∷ [];
}

vms-Reports_example :
    Reports
      (codes "csi-1")
      worker
      (instance_of ∷ [])
      (volumes_at (codes "worker-0") (vms (items (worker ∷ [])) (items (instance_of ∷ []))))
vms-Reports_example =
    vms-Reports (codes "csi-1") (λ e. absurd (ground (arith, e))) (worker ∷ []) (instance_of ∷ [])
      worker (tt, tt) (inl refl)

not_there : find ◌==◌ (codes "csi-2") (vm_volumes worker) ≡ none
unfolding vm_volumes add_spec text_at value_at find put ◌==◌
not_there = refl

add_options-vm_volumes_example :
    find ◌==◌
      (codes "root")
      (vm_volumes (with_request (request_for (codes "csi-2") (codes "disk-2") (codes "2")) worker))
    ≡ (if codes "csi-2" == codes "root"
        then some (record { in_spec = true; phase = []; claim = codes "disk-2" })
        else find ◌==◌ (codes "root") (vm_volumes worker))
add_options-vm_volumes_example =
    add_options-vm_volumes (codes "csi-2") (codes "disk-2") (codes "2") worker (codes "root")
      (λ e. absurd (ground (arith, e))) not_there
