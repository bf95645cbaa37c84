-- ===== src/CsiNode/Tests.antt =====
-- The node's half at concrete values.
use vcluster_private_cloud_c.CsiNode.{
  Surroundings, device, attempts, second, StageRequest, Mounter, chosen_serial, node_stage_volume,
}
use vcluster_private_cloud_c.CsiNode.Staged.{Staged, node_stage_volume-Staged, chosen_serial-agrees}
use vcluster_private_cloud_c.CsiNode.Wait.{Ticks}
use vcluster_private_cloud_c.Prelude.{◌*◌, ◌≡◌, inr, refl, arith, false, none, some, [], ◌∷◌, codes}
use vcluster_private_cloud_c.Samples.{lib, meta_of}
use vcluster_private_cloud_c.Storage.{GuestPvc, serial_for, guest_pv_for_claim}

-- A disk that is there from the start, and a clock that counts the attempts.
abbrev env : Surroundings
env = record {
  entries = λ n. some (codes "scsi-0QEMU_QEMU_HARDDISK_0123456789abcdef0123" ∷ []);
  link = λ n name. device (codes "/dev/sdb");
  clock = λ n. n * second;
  cancelled = λ n. false;
}

ticking : Ticks env
unfolding Ticks
ticking n = omega arith

abbrev claim : GuestPvc
claim = record {
  meta = meta_of "data" "p-1" 5 [];
  access_modes = codes "ReadWriteOnce" ∷ [];
  volume_mode = none;
  request = some (codes "1Gi");
  storage_class_name = some (codes "fast");
  volume_name = [];
}

abbrev request : StageRequest
request = record {
  volume_id = codes "acme-pvc-p-1";
  staging_path = codes "/staging";
  is_block = false;
  publish_context = ("serial", serial_for lib (codes "acme-pvc-p-1")) ∷ [];
  volume_context = ("serial", serial_for lib (codes "acme-pvc-p-1")) ∷ [];
}

abbrev mounter : Mounter
mounter = record {
  is_likely_not_mount_point = λ path. none;
  mkdir = λ path. none;
  format_and_mount = λ dev path. none;
  mount = λ source target options. none;
  cleanup = λ path. none;
}

node_stage_volume-Staged_example :
    Staged env
      (chosen_serial lib request)
      (codes "/staging")
      (node_stage_volume lib mounter env 0 attempts request)
node_stage_volume-Staged_example =
    node_stage_volume-Staged lib mounter env ticking 0 request (omega arith)

chosen_serial-agrees_example : chosen_serial lib request ≡ serial_for lib (codes "acme-pvc-p-1")
unfolding guest_pv_for_claim
chosen_serial-agrees_example =
    chosen_serial-agrees lib claim (codes "acme-pvc-p-1") (codes "fast") request refl refl
      (inr refl)
