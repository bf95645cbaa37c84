-- ===== src/Pass/Apply/Tests.antt =====
-- The writing to the host at concrete values.
use vcluster_private_cloud_c.Pass.Apply.{
  have, absent, LiveService, Reader, Writer, Applying, apply_all,
}
use vcluster_private_cloud_c.Service.{HostPort}
use vcluster_private_cloud_c.Pass.Apply.Ports.{PortsAreDistinct}
use vcluster_private_cloud_c.Pass.Apply.Guarded.{ReplacesOwned, apply_all-guarded}
use vcluster_private_cloud_c.Pass.Refs.{Pass, new_pass}
use vcluster_private_cloud_c.Prelude.{List, refl, none, [], ◌∷◌, codes, ◌==◌, All}
use vcluster_private_cloud_c.Samples.{lib, tenant, web_service}
use vcluster_private_cloud_c.Service.{HostService, load_balancer}
use vcluster_private_cloud_c.Service.Mapping.{host_service}

abbrev accepting : Writer
accepting = record { create = λ kind name. none; update = λ kind name. none }

abbrev wanted : HostService
wanted = host_service lib tenant web_service load_balancer []

-- A Service that somebody else has made.
abbrev foreign : LiveService
foreign = record {
  labels = [];
  svc_type = load_balancer;
  selector = [];
  ports = [];
  ip_families = [];
  ip_family_policy = none;
  allocated = codes "10.0.0.1";
}

abbrev taken : Reader
taken = record {
  service_at = λ name. have foreign;
  ingress_at = λ name. absent;
  gateway_at = λ name. absent;
  route_at = λ name. absent;
}

abbrev desired : Pass
desired = record new_pass { services = (wanted.name, wanted) ∷ [] }

abbrev start : Applying
start = record { state = desired; writes = [] }

apply_all-guarded_example :
    All (ReplacesOwned tenant) (apply_all tenant accepting taken start).writes
apply_all-guarded_example = apply_all-guarded tenant accepting taken desired

-- One number under two protocols.
abbrev dns : List HostPort
dns =
    record {
      name = codes "t";
      protocol = codes "TCP";
      port = 53;
      target_port = 30053;
      node_port = 31053;
    }
    ∷ record {
      name = codes "u";
      protocol = codes "UDP";
      port = 53;
      target_port = 30054;
      node_port = 31054;
    }
    ∷ []

dns_distinct : PortsAreDistinct dns
unfolding ◌==◌
dns_distinct = ((refl, tt), (tt, tt))
