-- ===== src/Route.antt =====
-- internal/syncer/gateway.go: the host HTTPRoute of a guest HTTPRoute. Parts without a reference to
-- an object, as matches and header changes, are kept as texts.
pub mod Filters
pub mod Rules
pub mod References
pub mod Safety
pub mod Result
mod Tests
use vcluster_private_cloud_c.Gathered.{Gathered, nothing}
use vcluster_private_cloud_c.Go.{Library}
use vcluster_private_cloud_c.Hostname
use vcluster_private_cloud_c.Meta.{Labels, ObjectMeta}
use vcluster_private_cloud_c.Prelude.{
  ℕ, Bool, true, false, not, Option, none, some, List, [], ◌∷◌, Text, codes, ◌==◌, if◌then◌else◌,
}
use vcluster_private_cloud_c.Service.Mapping.{Unresolved}
use vcluster_private_cloud_c.Tenant.{TenantCluster}

pub record ParentRef : Type 0 where
  pub group : Option Text
  pub kind : Option Text
  pub namespace : Option Text
  pub name : Text
  pub section_name : Option Text
  pub port : Option ℕ

pub record BackendObject : Type 0 where
  pub group : Option Text
  pub kind : Option Text
  pub namespace : Option Text
  pub name : Text
  pub port : Option ℕ

-- The types that the code tells apart, and any other: the API's changes of headers, redirects,
-- rewrites and CORS, and its ExternalAuth, which refers to an object.
pub data FilterType : Type 0 where
  extension_ref request_mirror : FilterType
  other : Text → FilterType

-- The references that a filter may hold, and `values` for its literal parts.
pub record Filter : Type 0 where
  pub filter_type : FilterType
  pub extension : Option Text
  pub mirror : Option BackendObject
  pub external_auth : Option BackendObject
  pub values : Text

pub record BackendRef : Type 0 where
  pub object : BackendObject
  pub weight : Option ℕ
  pub filters : List Filter

-- `matches` stands for the rule's matches, timeouts and other literal parts.
pub record RouteRule : Type 0 where
  pub matches : Text
  pub filters : List Filter
  pub backend_refs : List BackendRef

pub record HttpRoute : Type 0 where
  pub meta : ObjectMeta
  pub hostnames : List Text
  pub parent_refs : List ParentRef
  pub rules : List RouteRule

pub record HostRoute : Type 0 where
  pub name : Text
  pub namespace : Text
  pub labels : Labels
  pub parent_refs : List ParentRef
  pub hostnames : List Text
  pub rules : List RouteRule

-- Where a reference stands: in a rule, or in a backend reference of a rule.
pub data Where : Type 0 where
  rule : ℕ → Where
  rule_backend : ℕ → Text → Where

pub data Refusal : Type 0 where
  hostname : Hostname.Message → Refusal
  parent_kind : Text → Refusal
  no_parents : Refusal
  extension : Where → Text → Refusal
  mirror_kind mirror_namespace : Where → Text → Refusal
  mirror_backend : Where → Text → Unresolved → Refusal
  backend_kind backend_namespace : ℕ → Text → Refusal
  backend : ℕ → Text → Unresolved → Refusal

pub record RouteResult : Type 0 where
  pub host : Option HostRoute
  pub backends : List Text
  pub refusals : List Refusal

-- `kind != nil && *kind != want`
unfoldable pub other_than : Text → Option Text → Bool
other_than want none = false
other_than want (some k) = not (k == want)
