-- ===== src/Route/Tests.antt =====
-- An HTTPRoute at concrete values.
use vcluster_private_cloud_c.Go.{cut_prefix, index_byte, contains}
use vcluster_private_cloud_c.Hostname.{allowed, canonical}
use vcluster_private_cloud_c.Ownership.{host_object_name}
use vcluster_private_cloud_c.Prelude.{◌≡◌, refl, none, some, Option, [], ◌∷◌, Text, codes, ◌==◌}
use vcluster_private_cloud_c.Route.{
  Filter, other, rule, HttpRoute, HostRoute, ParentRef, BackendRef, RouteRule, other_than,
}
use vcluster_private_cloud_c.Route.Filters.{map_filters, host_object}
use vcluster_private_cloud_c.Route.Result.{HostRouteIsSafe, map_http_route-safe}
use vcluster_private_cloud_c.Route.Rules.{
  map_http_route, host_route, map_parents, map_hostnames, map_rules, map_backends,
}
use vcluster_private_cloud_c.Samples.{lib, tenant, meta_of}
use vcluster_private_cloud_c.Service.Mapping.{Unresolved}

abbrev parent : Text → ParentRef
parent name = record {
  group = none;
  kind = none;
  namespace = none;
  name = name;
  section_name = none;
  port = none;
}

abbrev backend : Text → BackendRef
backend name = record {
  object = record { group = none; kind = none; namespace = none; name = name; port = some 80 };
  weight = none;
  filters = [];
}

abbrev rule_to : Text → RouteRule
rule_to name = record { matches = codes "/"; filters = []; backend_refs = backend name ∷ [] }

abbrev api : HttpRoute
api = record {
  meta = meta_of "api" "r-1" 6 [];
  hostnames = codes "api.acme.io" ∷ codes "bank.io" ∷ [];
  parent_refs = parent (codes "edge") ∷ [];
  rules = rule_to (codes "web") ∷ [];
}

abbrev resolve : Text → Option Unresolved
resolve name = none

abbrev api_host : HostRoute
api_host =
    host_route lib tenant api
      (parent (host_object_name lib (codes "acme") (codes "default") (codes "edge")) ∷ [])
      (codes "api.acme.io" ∷ [])
      (rule_to (host_object_name lib (codes "acme") (codes "default") (codes "web")) ∷ [])

api_mapped : (map_http_route lib tenant api resolve).host ≡ some api_host
unfolding map_http_route map_parents map_hostnames map_rules map_backends map_filters other_than
    allowed canonical contains cut_prefix index_byte ◌==◌ host_object
api_mapped = refl

map_http_route-safe_example :
    HostRouteIsSafe lib tenant api resolve (map_http_route lib tenant api resolve) api_host
map_http_route-safe_example = map_http_route-safe lib tenant api resolve api_host api_mapped

-- A filter for external authorization crosses with the name that the guest gave.
abbrev checked : Filter
checked = record {
  filter_type = other (codes "ExternalAuth");
  extension = none;
  mirror = none;
  external_auth = some ((backend (codes "db")).object);
  values = [];
}

auth_crosses :
    (map_filters lib tenant (codes "default") (rule 0) resolve (checked ∷ [])).kept ≡ checked ∷ []
unfolding map_filters
auth_crosses = refl
