-- ===== src/Gateway.antt =====
-- internal/syncer/gateway.go: the host Gateway of a guest Gateway.
pub mod Safety
mod Tests
use vcluster_private_cloud_c.Gathered.{Gathered, nothing}
use vcluster_private_cloud_c.Go.{Library}
use vcluster_private_cloud_c.Hostname
use vcluster_private_cloud_c.Meta.{Labels, ObjectMeta}
use vcluster_private_cloud_c.Ownership.{host_object_name, ownership_labels}
use vcluster_private_cloud_c.Prelude.{
  ℕ, Bool, true, false, Option, none, some, List, [], ◌∷◌, ◌++◌, Text, is_empty, if◌then◌else◌,
}
use vcluster_private_cloud_c.Tenant.{TenantCluster}

pub record ListenerTls : Type 0 where
  pub mode : Option Text
  pub certificate_refs : List Text
  pub options : List (Text × Text)

-- `allowedRoutes`: from which namespaces routes may attach, by a selector that is kept as a text,
-- and of which kinds, each with its group.
pub record AllowedRoutes : Type 0 where
  pub from : Option Text
  pub selector : Option Text
  pub kinds : List (Option Text × Text)

pub record Listener : Type 0 where
  pub name : Text
  pub hostname : Option Text
  pub port : ℕ
  pub protocol : Text
  pub tls : Option ListenerTls
  pub allowed_routes : Option AllowedRoutes

-- `addresses` holds the values of spec.addresses.
pub record Gateway : Type 0 where
  pub meta : ObjectMeta
  pub addresses : List Text
  pub listeners : List Listener

pub record HostGateway : Type 0 where
  pub name : Text
  pub namespace : Text
  pub labels : Labels
  pub gateway_class_name : Text
  pub listeners : List Listener

pub data Refusal : Type 0 where
  no_gateway_class : Refusal
  addresses : List Text → Refusal
  no_hostname : Text → Refusal
  hostname : Hostname.Message → Refusal

pub record GatewayResult : Type 0 where
  pub host : Option HostGateway
  pub refusals : List Refusal

-- The values that are given, among the addresses asked for.
asked : List Text → List Text
asked [] = []
asked (a ∷ values) = let rest = asked values in if is_empty a then rest else a ∷ rest

address_refusal : List Text → List Refusal
unfolding asked
address_refusal [] = []
address_refusal (a ∷ values) = addresses (asked (a ∷ values)) ∷ []

-- The references to the guest's certificates do not cross.
unfoldable pub without_certificates : Listener → Listener
without_certificates l = elim l.tls [
  | none ↦ l
  | some t ↦ record l { tls = some (record t { certificate_refs = [] }) }
]

module _ (lib : Library) (tc : TenantCluster) where
  keep_listener : Listener → Text → Gathered Refusal Listener → Gathered Refusal Listener
  keep_listener l h rest =
      if is_empty h
      then record rest { refusals = no_hostname l.name ∷ rest.refusals }
      else if Hostname.allowed lib.unicode h tc.spec.allowed_domains
      then record rest { kept = without_certificates l ∷ rest.kept }
      else record rest {
        refusals = hostname (Hostname.refusal h tc.spec.allowed_domains) ∷ rest.refusals;
      }

  map_listeners : List Listener → Gathered Refusal Listener
  map_listeners [] = nothing
  map_listeners (l ∷ listeners) =
      let rest = map_listeners listeners in
      elim l.hostname [
        | none ↦ record rest { refusals = no_hostname l.name ∷ rest.refusals }
        | some h ↦ keep_listener l h rest
      ]

  unfoldable pub host_gateway : ObjectMeta → List Listener → HostGateway
  host_gateway guest listeners = record {
    name = host_object_name lib tc.name guest.namespace guest.name;
    namespace = tc.spec.host_namespace;
    labels = ownership_labels tc guest;
    gateway_class_name = tc.spec.gateway_class_name;
    listeners = listeners;
  }

unfoldable pub map_gateway : Library → TenantCluster → Gateway → GatewayResult
unfolding address_refusal map_listeners keep_listener without_certificates host_gateway
map_gateway lib tc guest =
    let listeners = map_listeners lib tc guest.listeners in
    let refusals = address_refusal guest.addresses ++ listeners.refusals in
    if is_empty tc.spec.gateway_class_name
    then record { host = none; refusals = no_gateway_class ∷ [] }
    else if is_empty listeners.kept
    then record { host = none; refusals = refusals }
    else record { host = some (host_gateway lib tc guest.meta listeners.kept); refusals = refusals }
