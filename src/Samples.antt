-- ===== src/Samples.antt =====
-- Concrete values on which the theorems are applied.
use vcluster_private_cloud_c.Prelude.{ℕ, true, false, none, some, [], ◌∷◌, codes, String}
use vcluster_private_cloud_c.Go.{Unicode, Library}
use vcluster_private_cloud_c.Meta.{ObjectMeta, Labels}
use vcluster_private_cloud_c.Tenant.{TenantCluster}
use vcluster_private_cloud_c.Service.{Service, ServicePort, load_balancer}

-- Tables that leave every character above 127 alone.
abbrev pub plain : Unicode
plain = record { lower = λ c. c; space = λ c. false }

-- A library with a digest of the right shape, which takes every text for an IPv4 address.
abbrev pub lib : Library
lib = record {
  unicode = plain;
  sha256_hex = λ s. codes "0123456789abcdef0123456789abcdef0123456789abcdef0123456789abcdef";
  is_ip4 = λ s. some true;
  is_zero = λ q. false;
}

abbrev pub tenant : TenantCluster
tenant = record {
  name = codes "acme";
  namespace = codes "tenants";
  uid = codes "u-1";
  spec = record {
    kubeconfig_secret_name = codes "kc";
    kubeconfig_secret_key = [];
    host_namespace = codes "vms";
    node_selector = ("vm", codes "acme") ∷ [];
    allowed_domains = codes "*.acme.io" ∷ [];
    ingress_class_name = codes "nginx";
    gateway_class_name = codes "cilium";
    load_balancers = some 1;
    sync = record {
      services = none;
      ingresses = none;
      gateways = none;
      storage = none;
      service_load_balancer_class = [];
    };
  };
}

-- The metadata of a guest object.
abbrev pub meta_of : String → String → ℕ → Labels → ObjectMeta
meta_of name uid created annotations = record {
  namespace = codes "default";
  name = codes name;
  uid = codes uid;
  created = created;
  deleting = false;
  labels = [];
  annotations = annotations;
  finalizers = [];
}

abbrev pub https_port : ServicePort
https_port = record { name = []; protocol = codes "TCP"; port = 443; node_port = 30443 }

abbrev pub web_service : Service
web_service = record {
  meta = meta_of "web" "s-1" 5 [];
  svc_type = load_balancer;
  load_balancer_class = none;
  ports = https_port ∷ [];
  ip_families = codes "IPv4" ∷ [];
  ip_family_policy = some (codes "SingleStack");
}

-- The same Service, asking for both families by annotation.
abbrev pub dual_service : Service
dual_service = record web_service {
  meta = meta_of "web" "s-1" 5 (("vcluster.the-it-dept.io/ip-families", codes "IPv4, IPv6") ∷ []);
}
