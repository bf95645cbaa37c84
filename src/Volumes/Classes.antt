-- ===== src/Volumes/Classes.antt =====
-- internal/syncer/storage_pass.go: the guest's StorageClasses, which mirror the offered ones.
pub mod Mirrored
pub mod Offered
pub mod Converged
use vcluster_private_cloud_c.Meta.{Labels, lookup, read}
use vcluster_private_cloud_c.Prelude.{
  ◌≡◌, refl, ==_iff, arith, Bool, true, false, ◌&&◌, Option, none, some, List, [], ◌∷◌, Text, ◌==◌,
  find, put, if◌then◌else◌,
}
use vcluster_private_cloud_c.Storage.{StorageClass, mirror_storage_class, default_class_annotation}
use vcluster_private_cloud_c.Volumes.{
  Work, World, create_class, delete_class, attempt, any_error, create_error, error_of, noted,
}

unfoldable pub same_text : Option Text → Option Text → Bool
same_text none none = true
same_text none (some t) = false
same_text (some s) none = false
same_text (some s) (some t) = s == t

pub same_text_eq : (s t : Option Text) → same_text s t ≡ true → s ≡ t
unfolding same_text
same_text_eq none none e = refl
same_text_eq none (some t) e = ground arith
same_text_eq (some s) none e = ground arith
same_text_eq (some s) (some t) e = ground (arith, ==_iff s t)

-- Every entry of the first is read in the second.
unfoldable pub included : Labels → Labels → Bool
unfolding lookup same_text
included [] m = true
included ((k, v) ∷ l) m = same_text (some v) (lookup k m) && included l m

-- `equality.Semantic.DeepEqual` of two maps, to which nil and empty are equal.
abbrev pub same_map : Labels → Labels → Bool
same_map l m = included l m && included m l

unfoldable pub sc_equal : StorageClass → StorageClass → Bool
unfolding same_text included read
sc_equal live want =
    live.provisioner == want.provisioner
    && (same_text live.binding_mode want.binding_mode
        && (same_text live.reclaim_policy want.reclaim_policy
            && (same_map live.parameters want.parameters
                && read default_class_annotation live.annotations
                  == read default_class_annotation want.annotations)))

-- The guest's classes by name; a later one of a name counts.
unfoldable pub existing :
    List StorageClass → List (Text × StorageClass) → List (Text × StorageClass)
existing [] m = m
existing (sc ∷ scs) m = existing scs (put ◌==◌ sc.name sc m)

module _ (w : World) where
  -- The body of the loop: a class that has drifted is deleted and created again.
  unfoldable pub apply_class : List (Text × StorageClass) → Text → StorageClass → Work → Work
  unfolding sc_equal
  apply_class there name host_sc s =
      let want = mirror_storage_class host_sc in
      elim (find ◌==◌ name there) [
        | none ↦ attempt w create_error (create_class want) (λ t. t) (noted name) s
        | some live ↦
            if sc_equal live want
            then s
            else attempt w error_of (delete_class live.name)
                (attempt w any_error (create_class want) (λ t. t) (noted name)) (noted name) s
      ]

  unfoldable pub apply_classes :
      List (Text × StorageClass) → List (Text × StorageClass) → Work → Work
  apply_classes there [] s = s
  apply_classes there ((name, sc) ∷ rest) s = apply_classes there rest (apply_class there name sc s)

  unfoldable pub apply_guest_storage_classes : Work → Work
  unfolding existing apply_classes
  apply_guest_storage_classes s =
      apply_classes (existing s.storage.guest_scs []) s.storage.offerable s
