-- ===== src/Meta.antt =====
-- The part of Kubernetes' object metadata that the program reads and writes.
use vcluster_private_cloud_c.Prelude.{
  put, find-put, find, ℕ, Bool, Option, none, some, List, [], String, Text, if◌then◌else◌, ◌≡◌,
}
use text.Mathlib.Text.{◌==◌ as str_eq}
use text.Mathlib.TextEquality.{eq_iff}

-- A Go map with text keys. The keys of labels and annotations are only compared.
abbrev pub Labels : Type 0
Labels = List (String × Text)

-- A read, with whether the key is there.
unfoldable pub lookup : String → Labels → Option Text
unfolding find
lookup key labels = find str_eq key labels

-- A read of a missing key gives the empty text.
unfoldable pub read : String → Labels → Text
unfolding lookup
read k m = elim (lookup k m) [ none ↦ [] | some v ↦ v ]

unfoldable pub insert : String → Text → Labels → Labels
unfolding put
insert key value labels = put str_eq key value labels

pub lookup-insert :
    (key asked : String) (value : Text) (labels : Labels)
    → lookup asked (insert key value labels)
      ≡ (if str_eq key asked then some value else lookup asked labels)
unfolding lookup insert
lookup-insert key asked value labels = find-put str_eq eq_iff key asked value labels

-- `metav1.ObjectMeta`. `deleting` says that the deletion timestamp is set; `created` counts time.
pub record ObjectMeta : Type 0 where
  pub namespace : Text
  pub name : Text
  pub uid : Text
  pub created : ℕ
  pub deleting : Bool
  pub labels : Labels
  pub annotations : Labels
  pub finalizers : List Text
