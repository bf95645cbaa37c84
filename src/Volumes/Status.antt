-- ===== src/Volumes/Status.antt =====
-- internal/syncer/storage_pass.go: the statuses of the guest's attachments.
use vcluster_private_cloud_c.Prelude.{
  Bool, true, false, ◌&&◌, Option, none, some, List, [], ◌∷◌, Text, if◌then◌else◌,
}
use vcluster_private_cloud_c.Volumes.{
  Work, World, VolumeAttachment, VaStatusWrite, update_status, attempt, any_error, noted,
}
use vcluster_private_cloud_c.Volumes.Classes.{same_map}

abbrev same_bool : Bool → Bool → Bool
same_bool true b = b
same_bool false true = false
same_bool false false = true

abbrev is_nil : Option Text → Bool
is_nil none = true
is_nil (some e) = false

-- Is the status already as desired? Of an error only whether there is one is compared.
unfoldable pub settled : VaStatusWrite → Bool
settled x =
    same_bool x.va.attached x.attached
    && (same_map x.va.metadata x.metadata
        && same_bool (is_nil x.va.attach_error) (is_nil x.err_msg))

abbrev pub with_status : VaStatusWrite → VolumeAttachment
with_status x = record (x.va) {
  attached = x.attached;
  metadata = x.metadata;
  attach_error = x.err_msg;
}

module _ (w : World) where
  unfoldable pub write_status : VaStatusWrite → Work → Work
  unfolding settled
  write_status x s =
      if settled x
      then s
      else attempt w any_error (update_status (with_status x)) (λ t. t) (noted x.va.meta.name) s

  unfoldable pub write_statuses : List VaStatusWrite → Work → Work
  write_statuses [] s = s
  write_statuses (x ∷ xs) s = write_statuses xs (write_status x s)

  unfoldable pub write_back_storage : Work → Work
  unfolding write_statuses
  write_back_storage s = write_statuses s.storage.va_status s
