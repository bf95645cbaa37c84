-- ===== src/Service/Mapping.antt =====
-- internal/syncer/service.go: `mapService`.
use vcluster_private_cloud_c.Prelude.{none, some, List, [], ◌∷◌, Text, eqb, if◌then◌else◌}
use vcluster_private_cloud_c.Go.{Library}
use vcluster_private_cloud_c.Ownership.{host_object_name, ownership_labels}
use vcluster_private_cloud_c.Service.{
  Service, ServiceType, ServicePort, HostPort, HostService, PortName, port_name, is_load_balancer,
}
use vcluster_private_cloud_c.Service.Families.{
  FamilyRefusal, Requested, asks, refused, requested_address_families, unsupported_family,
}
use vcluster_private_cloud_c.Tenant.{TenantCluster}

-- The refusal texts, with the values that each names.
pub data Refusal : Type 0 where
  no_node_port : PortName → Refusal
  no_ports : Refusal
  annotation : FamilyRefusal → Refusal
  unsupported : Text → List Text → Refusal

pub data Mapped : Type 0 where
  mapped : HostService → Mapped
  cannot : Refusal → Mapped

-- The loop over the ports ends at the first that has no node port.
pub data Ports : Type 0 where
  published : List HostPort → Ports
  unreachable : PortName → Ports

unfoldable pub map_port : ServicePort → HostPort
map_port p = record {
  name = p.name;
  protocol = p.protocol;
  port = p.port;
  target_port = p.node_port;
  node_port = 0;
}

unfoldable pub prepend : HostPort → Ports → Ports
prepend p (published ps) = published (p ∷ ps)
prepend p (unreachable n) = unreachable n

unfoldable pub map_ports : List ServicePort → Ports
unfolding map_port prepend
map_ports [] = published []
map_ports (p ∷ ps) =
    let rest = prepend (map_port p) (map_ports ps) in
    if eqb p.node_port 0 then unreachable (port_name p) else rest

-- Only the LoadBalancer object carries address families.
unfoldable pub with_families : List Text → HostService → Requested → Mapped
with_families host_families host (refused r) = cannot (annotation r)
with_families host_families host (asks fams policy) = elim (unsupported_family fams host_families) [
  | none ↦ mapped (record host { ip_families = fams; ip_family_policy = policy })
  | some f ↦ cannot (unsupported f host_families)
]

unfoldable pub host_service :
    Library → TenantCluster → Service → ServiceType → List HostPort → HostService
host_service lib tc guest svc_type ports = record {
  name = host_object_name lib tc.name guest.meta.namespace guest.meta.name;
  namespace = tc.spec.host_namespace;
  labels = ownership_labels tc guest.meta;
  svc_type = svc_type;
  selector = tc.spec.node_selector;
  ports = ports;
  ip_families = [];
  ip_family_policy = none;
}

unfoldable pub map_service_ports :
    Library → TenantCluster → Service → ServiceType → List Text → Ports → Mapped
unfolding with_families host_service
map_service_ports lib tc guest svc_type host_families (unreachable n) = cannot (no_node_port n)
map_service_ports lib tc guest svc_type host_families (published []) = cannot no_ports
map_service_ports lib tc guest svc_type host_families (published (p ∷ ps)) =
    let host = host_service lib tc guest svc_type (p ∷ ps) in
    if is_load_balancer svc_type
    then with_families host_families host (requested_address_families lib guest)
    else mapped host

unfoldable pub map_service : Library → TenantCluster → Service → ServiceType → List Text → Mapped
unfolding map_service_ports map_ports
map_service lib tc guest svc_type host_families =
    map_service_ports lib tc guest svc_type host_families (map_ports guest.ports)

-- Why the host cannot reach a backend, as `backendResolver` of internal/syncer/pass.go says it:
-- there is no such guest Service, it is being deleted, or it cannot be mapped.
pub data Unresolved : Type 0 where
  not_found being_deleted : Unresolved
  not_mapped : Refusal → Unresolved
