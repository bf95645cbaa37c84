-- ===== src/Gateway/Tests.antt =====
-- A Gateway at concrete values.
use vcluster_private_cloud_c.Gateway.{
  Gateway, Listener, HostGateway, map_gateway, host_gateway, without_certificates,
}
use vcluster_private_cloud_c.Gateway.Safety.{HostGatewayIsSafe, map_gateway-safe}
use vcluster_private_cloud_c.Go.{cut_prefix, index_byte, contains}
use vcluster_private_cloud_c.Hostname.{allowed, canonical}
use vcluster_private_cloud_c.Prelude.{◌≡◌, refl, none, some, [], ◌∷◌, Text, codes, ◌==◌, map}
use vcluster_private_cloud_c.Samples.{lib, tenant, meta_of}

-- A listener that names a certificate of the guest.
abbrev https : Text → Listener
https hostname = record {
  name = codes "https";
  hostname = some hostname;
  port = 443;
  protocol = codes "HTTPS";
  tls = some (record {
    mode = some (codes "Terminate");
    certificate_refs = codes "own-cert" ∷ [];
    options = [];
  });
  allowed_routes = none;
}

abbrev edge : Gateway
edge = record {
  meta = meta_of "edge" "g-1" 4 [];
  addresses = [];
  listeners = https (codes "www.acme.io") ∷ [];
}

abbrev edge_host : HostGateway
edge_host = host_gateway lib tenant edge.meta (map without_certificates edge.listeners)

edge_mapped : (map_gateway lib tenant edge).host ≡ some edge_host
unfolding map_gateway allowed canonical contains cut_prefix index_byte ◌==◌
edge_mapped = refl

map_gateway-safe_example : HostGatewayIsSafe lib tenant edge.meta edge_host
map_gateway-safe_example = map_gateway-safe lib tenant edge edge_host edge_mapped
