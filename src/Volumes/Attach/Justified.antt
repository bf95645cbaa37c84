-- ===== src/Volumes/Attach/Justified.antt =====
-- What the attachments of a guest make the storage slice do.
use vcluster_private_cloud_c.Go.{Library}
use vcluster_private_cloud_c.KubeVirt.{VolumeState, Volumes, ready, state_of}
use vcluster_private_cloud_c.Pass.{Pass}
use vcluster_private_cloud_c.Prelude.{
  ◌≡◌, ◌⊎◌, refl, sym, ap, ◌∙◌, true, false, Option, none, some, List, [], ◌∷◌, ◌++◌, Text, ◌==◌,
  find, All, All-append, Any,
}
use vcluster_private_cloud_c.Storage.{serial_for, volume_name}
use vcluster_private_cloud_c.Volumes.{
  Call, add_volume, remove_volume, update_attachment, StorageState, VolumeAttachment, VaStatusWrite,
  Work, issue,
}
use vcluster_private_cloud_c.Volumes.Attach.{handle_at, desire_status}
use vcluster_private_cloud_c.Volumes.Calls.{append_nil, append_assoc}

module _ (lib : Library) (st : StorageState) where
  -- The attachment is for the volume of that handle.
  unfoldable pub IsFor : VolumeAttachment → Text → Type 0
  IsFor va handle =
      (pv : Text) × ((va.pv_name ≡ some pv) × (handle_at pv st.guest_pvs ≡ some handle))

  -- The volume of that handle on the machine of the attachment's node, if there is a machine.
  abbrev pub volume_on : VolumeAttachment → Text → Volumes → Option VolumeState
  volume_on va handle vols = find ◌==◌ (volume_name lib handle) vols

  -- The machine of the attachment's node has no such volume, or there is no such machine.
  unfoldable pub IsFree : VolumeAttachment → Text → Type 0
  IsFree va handle =
      (find ◌==◌ va.node_name st.vms ≡ none)
      ⊎ ((vols : Volumes) × ((find ◌==◌ va.node_name st.vms ≡ some vols)
            × (volume_on va handle vols ≡ none)))

  -- What an attachment justifies: to plug its volume, under the names that derive from the handle,
  -- into a machine that does not have it; to unplug it when the attachment is being deleted; and to
  -- update the attachment, when it is being deleted only if its volume is unknown or out.
  unfoldable pub Justifies : Call → VolumeAttachment → Type 0
  Justifies c va = elim c [
    | add_volume vm volume claim serial ↦
        (va.meta.deleting ≡ false)
        × ((va.node_name ≡ vm)
            × (IsFor va claim
                × ((volume ≡ volume_name lib claim)
                    × ((serial ≡ serial_for lib claim)
                        × ((vols : Volumes) × ((find ◌==◌ vm st.vms ≡ some vols)
                              × (((state_of (volume_on va claim vols)).in_spec ≡ false)
                                  × ((state_of (volume_on va claim vols)).phase ≡ []))))))))
    | remove_volume vm volume ↦
        (va.meta.deleting ≡ true)
        × ((va.node_name ≡ vm)
            × ((handle : Text) × (IsFor va handle × (volume ≡ volume_name lib handle))))
    | update_attachment new ↦
        (new.pv_name ≡ va.pv_name)
        × ((new.node_name ≡ va.node_name)
            × (va.meta.deleting ≡ true → (handle : Text) → IsFor va handle → IsFree va handle))
    | _ ↦ ⊥
  ]

  -- A status that says attached is for a disk that is visible in the guest, and gives its serial.
  unfoldable pub Reports : VaStatusWrite → VolumeAttachment → Type 0
  Reports x va =
      (x.va.node_name ≡ va.node_name)
      × (x.attached ≡ true
          → (handle : Text) × (IsFor va handle
              × ((x.metadata ≡ ("serial", serial_for lib handle) ∷ [])
                  × ((vols : Volumes) × ((find ◌==◌ va.node_name st.vms ≡ some vols)
                        × ((state_of (volume_on va handle vols)).phase ≡ ready))))))

-- From the work `s0` on: what machines and volumes are listed is the same, and the calls and the
-- statuses added are justified.
pub record Just (lib : Library) (vas : List VolumeAttachment) (s0 s : Work) : Type 0 where
  pub vms : s.storage.vms ≡ s0.storage.vms
  pub pvs : s.storage.guest_pvs ≡ s0.storage.guest_pvs
  pub added : List Call
  pub log : s.calls ≡ s0.calls ++ added
  pub calls : All (λ c. Any (Justifies lib s0.storage c) vas) added
  pub written : List VaStatusWrite
  pub status : s.storage.va_status ≡ s0.storage.va_status ++ written
  pub reports : All (λ x. Any (Reports lib s0.storage x) vas) written

pub Just-refl : (lib : Library) (vas : List VolumeAttachment) (s : Work) → Just lib vas s s
Just-refl lib vas s = record {
  vms = refl;
  pvs = refl;
  added = [];
  log = sym (append_nil s.calls);
  calls = tt;
  written = [];
  status = sym (append_nil s.storage.va_status);
  reports = tt;
}

module _ (lib : Library) (vas : List VolumeAttachment) (s0 : Work) where
  pub call-Just :
      (c : Call) (s : Work)
      → Any (Justifies lib s0.storage c) vas
      → Just lib vas s0 s
      → Just lib vas s0 (issue c s)
  call-Just c s q h = record {
    vms = h.vms;
    pvs = h.pvs;
    written = h.written;
    status = h.status;
    reports = h.reports;
    added = h.added ++ c ∷ [];
    log = ap (λ l. l ++ c ∷ []) h.log ∙ append_assoc s0.calls h.added (c ∷ []);
    calls = All-append (λ c. Any (Justifies lib s0.storage c) vas) h.added (c ∷ []) h.calls (q, tt);
  }

  pub status-Just :
      (x : VaStatusWrite) (s : Work)
      → Any (Reports lib s0.storage x) vas
      → Just lib vas s0 s
      → Just lib vas s0 (desire_status x s)
  status-Just x s q h = record {
    vms = h.vms;
    pvs = h.pvs;
    added = h.added;
    log = h.log;
    calls = h.calls;
    written = h.written ++ x ∷ [];
    status = ap (λ l. l ++ x ∷ []) h.status ∙ append_assoc s0.storage.va_status h.written (x ∷ []);
    reports =
        All-append (λ x. Any (Reports lib s0.storage x) vas) h.written (x ∷ []) h.reports (q, tt);
  }

  pub state-Just :
      (p : Pass) (s : Work) → Just lib vas s0 s → Just lib vas s0 (record s { state = p })
  state-Just p s h = record {
    vms = h.vms;
    pvs = h.pvs;
    added = h.added;
    log = h.log;
    calls = h.calls;
    written = h.written;
    status = h.status;
    reports = h.reports;
  }
