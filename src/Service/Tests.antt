-- ===== src/Service/Tests.antt =====
-- Services at concrete values.
use vcluster_private_cloud_c.Prelude.{◌≡◌, refl, true, some, [], ◌∷◌, map, codes, ◌==◌}
use vcluster_private_cloud_c.Go.{split, trim_space}
use vcluster_private_cloud_c.Meta.{lookup}
use vcluster_private_cloud_c.Samples.{lib, tenant, web_service, dual_service}
use vcluster_private_cloud_c.Service.{HostService, load_balancer, wants_load_balancer, port_name}
use vcluster_private_cloud_c.Service.Families.{
  ipv4, ipv6, require_dual_stack, requested_address_families, asks, unsupported_family,
  parse_families, contains_family,
}
use vcluster_private_cloud_c.Service.Mapping.{mapped, map_service, host_service, map_port}
use vcluster_private_cloud_c.Service.Hosted.{IsHostOf, map_service-IsHostOf}

dual_request :
    requested_address_families lib dual_service ≡ asks (ipv4 ∷ ipv6 ∷ []) (some require_dual_stack)
unfolding requested_address_families parse_families lookup split trim_space ◌==◌ contains_family
dual_request = refl

abbrev web_host : HostService
web_host =
    record (host_service lib tenant web_service load_balancer (map map_port web_service.ports)) {
      ip_families = ipv4 ∷ [];
      ip_family_policy = some (codes "SingleStack");
    }

web_mapped : map_service lib tenant web_service load_balancer (ipv4 ∷ []) ≡ mapped web_host
unfolding map_service requested_address_families lookup unsupported_family contains_family ◌==◌
    port_name
web_mapped = refl

map_service-IsHostOf_example : IsHostOf lib tenant web_service load_balancer (ipv4 ∷ []) web_host
map_service-IsHostOf_example =
    map_service-IsHostOf lib tenant web_service (ipv4 ∷ []) load_balancer web_host web_mapped

web_wanted : wants_load_balancer tenant web_service ≡ true
unfolding wants_load_balancer
web_wanted = refl
