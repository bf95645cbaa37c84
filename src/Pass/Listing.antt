-- ===== src/Pass/Listing.antt =====
-- The answers of the API servers to List calls.
use vcluster_private_cloud_c.Prelude.{List, Text}

-- An error of an API server, which the program only reports.
abbrev pub ApiError : Type 0
ApiError = Text

-- What an API server answers to a List call: the items, that it does not know the kind, or
-- another error.
pub data Listing (A : Type 0) : Type 0 where
  items : List A → Listing A
  no_match list_failed : ApiError → Listing A
