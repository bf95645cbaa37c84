-- ===== src/Service.antt =====
-- internal/syncer/service.go: which guest Services are in scope, and the host Service of one.
pub mod Families
pub mod Mapping
pub mod Requests
pub mod Hosted
pub mod Classes
mod Tests
use vcluster_private_cloud_c.Prelude.{
  ℕ, Bool, true, false, Option, none, some, List, String, Text, ◌==◌, is_empty, if◌then◌else◌,
}
use vcluster_private_cloud_c.Meta.{Labels, ObjectMeta}
use vcluster_private_cloud_c.Tenant.{TenantCluster}

pub data ServiceType : Type 0 where
  cluster_ip node_port load_balancer external_name : ServiceType

-- A guest's port; `node_port` is 0 where none is allocated.
pub record ServicePort : Type 0 where
  pub name : Text
  pub protocol : Text
  pub port : ℕ
  pub node_port : ℕ

-- The fields of a guest Service that the program reads. The address families and their policy are
-- texts, as in the API.
pub record Service : Type 0 where
  pub meta : ObjectMeta
  pub svc_type : ServiceType
  pub load_balancer_class : Option Text
  pub ports : List ServicePort
  pub ip_families : List Text
  pub ip_family_policy : Option Text

-- The host port, whose `target_port` is the guest's node port.
pub record HostPort : Type 0 where
  pub name : Text
  pub protocol : Text
  pub port : ℕ
  pub target_port : ℕ
  pub node_port : ℕ

-- The host Service as the program builds it.
pub record HostService : Type 0 where
  pub name : Text
  pub namespace : Text
  pub labels : Labels
  pub svc_type : ServiceType
  pub selector : List (String × Text)
  pub ports : List HostPort
  pub ip_families : List Text
  pub ip_family_policy : Option Text

abbrev pub is_load_balancer : ServiceType → Bool
is_load_balancer load_balancer = true
is_load_balancer _ = false

-- Is the class absent, or the one that the tenant's registration names?
class_matches : Text → Option Text → Bool
class_matches want none = is_empty want
class_matches want (some c) = if is_empty want then false else c == want

unfoldable pub wants_load_balancer : TenantCluster → Service → Bool
unfolding class_matches
wants_load_balancer tc svc =
    if is_load_balancer svc.svc_type
    then class_matches tc.spec.sync.service_load_balancer_class svc.load_balancer_class
    else false

-- How a refusal names a port: by its name, or else by number and protocol.
pub data PortName : Type 0 where
  named : Text → PortName
  numbered : ℕ → Text → PortName

unfoldable pub port_name : ServicePort → PortName
port_name p = if is_empty p.name then numbered p.port p.protocol else named p.name
