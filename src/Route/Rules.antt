-- ===== src/Route/Rules.antt =====
-- internal/syncer/gateway.go: `mapHTTPRoute`.
use vcluster_private_cloud_c.Gathered.{Gathered, nothing}
use vcluster_private_cloud_c.Go.{Library}
use vcluster_private_cloud_c.Hostname
use vcluster_private_cloud_c.Ownership.{host_object_name, ownership_labels}
use vcluster_private_cloud_c.Prelude.{
  ℕ, suc, ◌&&◌, ◌||◌, not, Option, none, some, List, [], ◌∷◌, ◌++◌, Text, codes, is_empty,
  sorted_names, if◌then◌else◌,
}
use vcluster_private_cloud_c.Route.{
  ParentRef, Filter, BackendRef, RouteRule, HttpRoute, HostRoute, rule, rule_backend, Refusal,
  hostname, parent_kind, no_parents, backend_kind, backend_namespace, backend, RouteResult,
  other_than,
}
use vcluster_private_cloud_c.Route.Filters.{host_object, map_filters}
use vcluster_private_cloud_c.Service.Mapping.{Unresolved}
use vcluster_private_cloud_c.Tenant.{TenantCluster}

-- A namespace that is not given is the route's own.
abbrev pub or_own : Text → Option Text → Text
or_own own none = own
or_own own (some ns) = ns

module _ (lib : Library) (tc : TenantCluster) (guest_ns : Text)
    (resolve : Text → Option Unresolved) where
  unfoldable pub map_hostnames : List Text → Gathered Refusal Text
  map_hostnames [] = nothing
  map_hostnames (h ∷ hostnames) =
      let rest = map_hostnames hostnames in
      if Hostname.allowed lib.unicode h tc.spec.allowed_domains
      then record rest { kept = h ∷ rest.kept }
      else record rest {
        refusals = hostname (Hostname.refusal h tc.spec.allowed_domains) ∷ rest.refusals;
      }

  unfoldable pub host_parent : ParentRef → ParentRef
  host_parent p = record p {
    namespace = none;
    name = host_object_name lib tc.name (or_own guest_ns p.namespace) p.name;
  }

  unfoldable pub map_parents : List ParentRef → Gathered Refusal ParentRef
  unfolding host_parent
  map_parents [] = nothing
  map_parents (p ∷ parents) =
      let rest = map_parents parents in
      if other_than (codes "Gateway") p.kind
      then record rest { refusals = parent_kind p.name ∷ rest.refusals }
      else record rest { kept = host_parent p ∷ rest.kept }

  -- A backend that passes the tests, with its filters.
  unfoldable pub keep_backend :
      BackendRef
      → Gathered Refusal Filter
      → Gathered Refusal BackendRef
      → Gathered Refusal BackendRef
  keep_backend b filters rest = record {
    kept =
        record b { object = host_object lib tc guest_ns b.object; filters = filters.kept }
        ∷ rest.kept;
    backends = b.object.name ∷ (filters.backends ++ rest.backends);
    refusals = filters.refusals ++ rest.refusals;
  }

  unfoldable pub map_backend :
      ℕ → BackendRef → Gathered Refusal BackendRef → Gathered Refusal BackendRef
  unfolding keep_backend
  map_backend i b rest =
      if other_than (codes "Service") b.object.kind
      then record rest { refusals = backend_kind i b.object.name ∷ rest.refusals }
      else if other_than guest_ns b.object.namespace
      then record rest { refusals = backend_namespace i b.object.name ∷ rest.refusals }
      else elim (resolve b.object.name) [
        | some msg ↦ record rest { refusals = backend i b.object.name msg ∷ rest.refusals }
        | none ↦
            keep_backend b
              (map_filters lib tc guest_ns (rule_backend i b.object.name) resolve b.filters) rest
      ]

  unfoldable pub map_backends : ℕ → List BackendRef → Gathered Refusal BackendRef
  unfolding map_backend
  map_backends i [] = nothing
  map_backends i (b ∷ backend_refs) = let rest = map_backends i backend_refs in map_backend i b rest

  -- A rule whose backends were all refused is left out; one that had none is kept.
  unfoldable pub with_rule :
      RouteRule
      → Gathered Refusal Filter
      → Gathered Refusal BackendRef
      → Gathered Refusal RouteRule
      → Gathered Refusal RouteRule
  with_rule r filters backend_refs rest = record {
    kept =
        if not (is_empty backend_refs.kept) || is_empty r.backend_refs
        then record r { filters = filters.kept; backend_refs = backend_refs.kept } ∷ rest.kept
        else rest.kept;
    backends = filters.backends ++ (backend_refs.backends ++ rest.backends);
    refusals = filters.refusals ++ (backend_refs.refusals ++ rest.refusals);
  }

  unfoldable pub map_rules : ℕ → List RouteRule → Gathered Refusal RouteRule
  unfolding with_rule
  map_rules i [] = nothing
  map_rules i (r ∷ rules) =
      let rest = map_rules (suc i) rules in
      with_rule r (map_filters lib tc guest_ns (rule i) resolve r.filters)
        (map_backends i r.backend_refs) rest

abbrev pub refused : List Refusal → RouteResult
refused refusals = record { host = none; backends = []; refusals = refusals }

unfoldable pub host_route :
    Library → TenantCluster → HttpRoute → List ParentRef → List Text → List RouteRule → HostRoute
host_route lib tc guest parents hostnames rules = record {
  name = host_object_name lib tc.name guest.meta.namespace guest.meta.name;
  namespace = tc.spec.host_namespace;
  labels = ownership_labels tc guest.meta;
  parent_refs = parents;
  hostnames = hostnames;
  rules = rules;
}

unfoldable pub map_http_route :
    Library → TenantCluster → HttpRoute → (Text → Option Unresolved) → RouteResult
map_http_route lib tc guest resolve =
    let ns = guest.meta.namespace in
    let names = map_hostnames lib tc ns resolve guest.hostnames in
    let parents = map_parents lib tc ns resolve guest.parent_refs in
    let rules = map_rules lib tc ns resolve 0 guest.rules in
    let before = names.refusals ++ parents.refusals in
    if not (is_empty guest.hostnames) && is_empty names.kept
    then refused names.refusals
    else if is_empty parents.kept
    then refused (before ++ no_parents ∷ [])
    else if is_empty rules.kept
    then refused (before ++ rules.refusals)
    else record {
      host = some (host_route lib tc guest parents.kept names.kept rules.kept);
      backends = sorted_names rules.backends;
      refusals = before ++ rules.refusals;
    }
