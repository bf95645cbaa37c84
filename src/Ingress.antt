-- ===== src/Ingress.antt =====
-- internal/syncer/ingress.go: the host Ingress of a guest Ingress.
pub mod Safety
pub mod Result
pub mod Complete
mod Tests
use vcluster_private_cloud_c.Prelude.{
  ℕ, Bool, true, false, Option, none, some, List, [], ◌∷◌, ◌++◌, Text, is_empty, sorted_names,
  if◌then◌else◌,
}
use vcluster_private_cloud_c.Gathered.{Gathered, nothing}
use vcluster_private_cloud_c.Go.{Library}
use vcluster_private_cloud_c.Hostname
use vcluster_private_cloud_c.Meta.{Labels, ObjectMeta}
use vcluster_private_cloud_c.Ownership.{host_object_name, ownership_labels}
use vcluster_private_cloud_c.Service.Mapping.{Unresolved}
use vcluster_private_cloud_c.Tenant.{TenantCluster}

-- A Service and its port, which is a name or a number and is copied.
pub record ServiceBackend : Type 0 where
  pub name : Text
  pub port_name : Text
  pub port_number : ℕ

-- A path whose backend is a Service, or none where it is another resource.
pub record IngressPath : Type 0 where
  pub path : Text
  pub path_type : Text
  pub service : Option ServiceBackend

pub record IngressRule : Type 0 where
  pub host : Text
  pub http : Option (List IngressPath)

pub record IngressTls : Type 0 where
  pub hosts : List Text
  pub secret_name : Text

pub record Ingress : Type 0 where
  pub meta : ObjectMeta
  pub has_default_backend : Bool
  pub rules : List IngressRule
  pub tls : List IngressTls

-- The host Ingress. It has no default backend, and no annotations.
pub record HostIngress : Type 0 where
  pub name : Text
  pub namespace : Text
  pub labels : Labels
  pub ingress_class_name : Option Text
  pub rules : List IngressRule
  pub tls : List IngressTls

-- The refusal texts, with the values that each names.
pub data Refusal : Type 0 where
  default_backend : Refusal
  hostname tls_hostname : Hostname.Message → Refusal
  not_a_service : Text → Text → Refusal
  backend : Text → Text → Text → Unresolved → Refusal

pub record IngressResult : Type 0 where
  pub host : Option HostIngress
  pub backends : List Text
  pub refusals : List Refusal

new_host_ingress : Library → TenantCluster → ObjectMeta → HostIngress
new_host_ingress lib tc guest = record {
  name = host_object_name lib tc.name guest.namespace guest.name;
  namespace = tc.spec.host_namespace;
  labels = ownership_labels tc guest;
  ingress_class_name =
      if is_empty tc.spec.ingress_class_name then none else some tc.spec.ingress_class_name;
  rules = [];
  tls = [];
}

module _ (lib : Library) (tc : TenantCluster) (guest : ObjectMeta)
    (resolve : Text → Option Unresolved) where
  abbrev allowed : Text → Bool
  allowed h = Hostname.allowed lib.unicode h tc.spec.allowed_domains

  abbrev refusal : Text → Hostname.Message
  refusal h = Hostname.refusal h tc.spec.allowed_domains

  -- The path with its backend renamed to the host's.
  host_path : IngressPath → ServiceBackend → IngressPath
  host_path path b = record path {
    service = some (record b { name = host_object_name lib tc.name guest.namespace b.name });
  }

  map_service_path :
      Text
      → IngressPath
      → ServiceBackend
      → Gathered Refusal IngressPath
      → Gathered Refusal IngressPath
  map_service_path host path b rest = elim (resolve b.name) [
    | some msg ↦ record rest { refusals = backend path.path host b.name msg ∷ rest.refusals }
    | none ↦ record rest { kept = host_path path b ∷ rest.kept; backends = b.name ∷ rest.backends }
  ]

  map_paths : Text → List IngressPath → Gathered Refusal IngressPath
  map_paths host [] = nothing
  map_paths host (path ∷ paths) =
      let rest = map_paths host paths in
      elim path.service [
        | none ↦ record rest { refusals = not_a_service path.path host ∷ rest.refusals }
        | some b ↦ map_service_path host path b rest
      ]

  -- A rule of which no path survives is left out.
  with_rule :
      Text
      → Gathered Refusal IngressPath
      → Gathered Refusal IngressRule
      → Gathered Refusal IngressRule
  with_rule host paths rest = record {
    kept =
        if is_empty paths.kept
        then rest.kept
        else record { host = host; http = some paths.kept } ∷ rest.kept;
    backends = paths.backends ++ rest.backends;
    refusals = paths.refusals ++ rest.refusals;
  }

  pub map_rules : List IngressRule → Gathered Refusal IngressRule
  map_rules [] = nothing
  map_rules (rule ∷ rules) =
      let rest = map_rules rules in
      if allowed rule.host
      then elim rule.http [
        | none ↦ rest
        | some paths ↦ with_rule rule.host (map_paths rule.host paths) rest
      ]
      else record rest { refusals = hostname (refusal rule.host) ∷ rest.refusals }

  tls_hosts : List Text → Gathered Refusal Text
  tls_hosts [] = nothing
  tls_hosts (h ∷ hosts) =
      let rest = tls_hosts hosts in
      if allowed h
      then record rest { kept = h ∷ rest.kept }
      else record rest { refusals = tls_hostname (refusal h) ∷ rest.refusals }

  pub map_tls : List IngressTls → Gathered Refusal IngressTls
  map_tls [] = nothing
  map_tls (t ∷ tls) =
      let hosts = tls_hosts t.hosts in
      let rest = map_tls tls in
      record rest {
        kept =
            if is_empty hosts.kept
            then rest.kept
            else record { hosts = hosts.kept; secret_name = [] } ∷ rest.kept;
        refusals = hosts.refusals ++ rest.refusals;
      }

  -- The TLS section is looked at only where a rule has survived.
  finish : List Refusal → Gathered Refusal IngressRule → List IngressTls → IngressResult
  finish first rules tls =
      let certs = map_tls tls in
      if is_empty rules.kept
      then record {
        host = none;
        backends = sorted_names rules.backends;
        refusals = first ++ rules.refusals;
      }
      else record {
        host =
            some (record (new_host_ingress lib tc guest) { rules = rules.kept; tls = certs.kept });
        backends = sorted_names rules.backends;
        refusals = first ++ (rules.refusals ++ certs.refusals);
      }

unfoldable pub map_ingress :
    Library → TenantCluster → Ingress → (Text → Option Unresolved) → IngressResult
unfolding finish map_tls tls_hosts map_rules with_rule map_paths map_service_path host_path
    new_host_ingress
map_ingress lib tc guest resolve =
    finish lib tc guest.meta resolve
      (if guest.has_default_backend then default_backend ∷ [] else [])
      (map_rules lib tc guest.meta resolve guest.rules) guest.tls
