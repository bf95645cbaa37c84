-- ===== src/KubeVirt/Values.antt =====
-- The values of unstructured objects, as far as internal/kubevirt/hotplug.go tells them apart.
use text.Mathlib.Text.{◌==◌ as str_eq}
use vcluster_private_cloud_c.Prelude.{Bool, Option, none, some, [], String, Text, if◌then◌else◌}

mutual
  pub data Json : Type 0 where
    string : Text → Json
    flag : Bool → Json
    object : Fields → Json
    other : Json

  pub data Fields : Type 0 where
    empty : Fields
    field : String → Json → Fields → Fields

-- `m[key]`
unfoldable pub value_at : String → Fields → Option Json
value_at key empty = none
value_at key (field k v m) = if str_eq k key then some v else value_at key m

as_text : Option Json → Text
as_text (some (string t)) = t
as_text (some (flag b)) = []
as_text (some (object m)) = []
as_text (some other) = []
as_text none = []

as_object : Option Json → Option Fields
as_object (some (object m)) = some m
as_object (some (string t)) = none
as_object (some (flag b)) = none
as_object (some other) = none
as_object none = none

-- `m[key].(string)`, empty if it is none.
unfoldable pub text_at : String → Fields → Text
unfolding as_text value_at
text_at key m = as_text (value_at key m)

-- `m[key].(map[string]any)`
unfoldable pub object_at : String → Fields → Option Fields
unfolding as_object value_at
object_at key m = as_object (value_at key m)
