-- ===== src/Ingress/Tests.antt =====
-- An Ingress at concrete values.
use vcluster_private_cloud_c.Go.{cut_prefix, index_byte, contains}
use vcluster_private_cloud_c.Hostname.{allowed, canonical}
use vcluster_private_cloud_c.Ingress.{Ingress, IngressPath, HostIngress, map_ingress}
use vcluster_private_cloud_c.Ingress.Complete.{served, translated, map_ingress_complete}
use vcluster_private_cloud_c.Ingress.Result.{HostIngressIsSafe, map_ingress-safe}
use vcluster_private_cloud_c.Ownership.{host_object_name, ownership_labels}
use vcluster_private_cloud_c.Prelude.{
  ◌≡◌, refl, false, none, some, Option, [], ◌∷◌, Text, codes, ◌==◌, is_empty, sorted_names,
  if◌then◌else◌,
}
use vcluster_private_cloud_c.Samples.{lib, tenant, meta_of}
use vcluster_private_cloud_c.Service.Mapping.{Unresolved, not_found}

abbrev shop_path : Text → IngressPath
shop_path backend = record {
  path = codes "/";
  path_type = codes "Prefix";
  service = some (record { name = backend; port_name = []; port_number = 80 });
}

-- One host that the tenant may use, and one that it may not.
abbrev shop : Ingress
shop = record {
  meta = meta_of "shop" "i-1" 3 [];
  has_default_backend = false;
  rules =
      record { host = codes "shop.acme.io"; http = some (shop_path (codes "web") ∷ []) }
      ∷ record { host = codes "bank.io"; http = some (shop_path (codes "web") ∷ []) }
      ∷ [];
  tls = [];
}

abbrev resolve : Text → Option Unresolved
resolve name = if name == codes "web" then none else some not_found

abbrev shop_host : HostIngress
shop_host = record {
  name = host_object_name lib (codes "acme") (codes "default") (codes "shop");
  namespace = codes "vms";
  labels = ownership_labels tenant shop.meta;
  ingress_class_name = some (codes "nginx");
  rules =
      record {
        host = codes "shop.acme.io";
        http =
            some (
              shop_path (host_object_name lib (codes "acme") (codes "default") (codes "web")) ∷ []);
      }
      ∷ [];
  tls = [];
}

shop_mapped : (map_ingress lib tenant shop resolve).host ≡ some shop_host
unfolding map_ingress allowed canonical contains cut_prefix index_byte ◌==◌ sorted_names
shop_mapped = refl

map_ingress-safe_example :
    HostIngressIsSafe lib tenant shop.meta resolve (map_ingress lib tenant shop resolve) shop_host
map_ingress-safe_example = map_ingress-safe lib tenant shop resolve shop_host shop_mapped

-- The same without the host that is refused.
abbrev shop_only : Ingress
shop_only = record shop {
  rules = record { host = codes "shop.acme.io"; http = some (shop_path (codes "web") ∷ []) } ∷ [];
}

shop_only_clean : (map_ingress lib tenant shop_only resolve).refusals ≡ []
unfolding map_ingress allowed canonical contains cut_prefix index_byte ◌==◌ sorted_names
shop_only_clean = refl

map_ingress_complete_example :
    (shop_only.has_default_backend ≡ false)
    × ((map_ingress lib tenant shop_only resolve).host ≡ (
        if is_empty (served lib tenant shop_only.meta resolve shop_only.rules)
        then none
        else some (translated lib tenant shop_only.meta resolve shop_only)))
map_ingress_complete_example = map_ingress_complete lib tenant shop_only resolve shop_only_clean
