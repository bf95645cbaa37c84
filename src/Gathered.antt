-- ===== src/Gathered.antt =====
-- What a mapping loop of internal/syncer puts together: the parts that survive, the guest Services
-- that they need, in the order met, and the refusals.
use vcluster_private_cloud_c.Prelude.{List, [], Text}

pub record Gathered (R A : Type 0) : Type 0 where
  pub kept : List A
  pub backends : List Text
  pub refusals : List R

abbrev pub nothing : {R A : Type 0} → Gathered R A
nothing = record { kept = []; backends = []; refusals = [] }
