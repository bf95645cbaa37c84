-- ===== src/KubeVirt/Merge/Queued.antt =====
-- A queued request to add a volume, as it is read back.
use vcluster_private_cloud_c.KubeVirt.{
  Json, object, field, empty, text_at, object_at, value_at, Volumes, claim_of, source_claim,
  queued_state, add_queued, added_by, add_spec, each, Vm, vm_volumes,
}
use vcluster_private_cloud_c.KubeVirt.Plug.{add_options}
use vcluster_private_cloud_c.Prelude.{
  ◌≡◌, ◌≢◌, refl, true, false, none, some, List, [], ◌∷◌, ◌++◌, Text, ◌==◌, ==_iff, is_empty, find,
  put, find-put, if◌then◌else◌,
}

-- A request in `status.volumeRequests` that asks for the options of an addvolume call.
abbrev pub request_for : Text → Text → Text → Json
request_for volume claim serial =
    object (field "addVolumeOptions" (object (add_options volume claim serial)) empty)

-- A machine with one more request in its queue.
abbrev pub with_request : Json → Vm → Vm
with_request r vm = record vm { requests = vm.requests ++ r ∷ [] }

not_empty : (t : Text) → t ≢ [] → is_empty t ≡ false
not_empty [] named = absurd (named refl)
not_empty (c ∷ t) named = refl

module _ (volume claim serial : Text) where
  name_back : text_at "name" (add_options volume claim serial) ≡ volume
  unfolding text_at value_at add_options
  name_back = refl

  source_back : source_claim (object_at "volumeSource" (add_options volume claim serial)) ≡ claim
  unfolding object_at value_at add_options source_claim claim_of text_at
  source_back = refl

  added_back : added_by (request_for volume claim serial) ≡ some (add_options volume claim serial)
  unfolding object_at value_at
  added_back = refl

  one_more :
      (rs : List Json) (r : Json) (vols : Volumes)
      → each (λ q. add_queued (added_by q)) (rs ++ r ∷ []) vols
        ≡ add_queued (added_by r) (each (λ q. add_queued (added_by q)) rs vols)
  one_more [] r vols = refl
  one_more (q ∷ rs) r vols = one_more rs r (add_queued (added_by q) vols)

  queued_new :
      (vols : Volumes)
      → volume ≢ []
      → find ◌==◌ volume vols ≡ none
      → add_queued (some (add_options volume claim serial)) vols
        ≡ put ◌==◌ volume (record { in_spec = true; phase = []; claim = claim }) vols
  unfolding add_queued queued_state
  queued_new vols named absent = rw (name_back, not_empty volume named, absent, source_back) refl

  -- When the options of an addvolume call for a volume that the machine does not have yet stand
  -- at the end of its queue of requests, the machine is read as having that volume, desired, with
  -- no phase and with the claim that the call named; every other volume is read as without the
  -- request.
  pub add_options-vm_volumes :
      (vm : Vm) (other : Text)
      → volume ≢ []
      → find ◌==◌ volume (vm_volumes vm) ≡ none
      → find ◌==◌ other (vm_volumes (with_request (request_for volume claim serial) vm)) ≡ (
          if volume == other
          then some (record { in_spec = true; phase = []; claim = claim })
          else find ◌==◌ other (vm_volumes vm))
  unfolding vm_volumes
  add_options-vm_volumes vm other named absent =
      let before = vm_volumes vm in
      rw
        (
          one_more vm.requests (request_for volume claim serial) (each add_spec vm.volumes []),
          added_back,
          queued_new before named absent,
        )
        (find-put ◌==◌ ==_iff volume other (record { in_spec = true; phase = []; claim = claim })
          before)
