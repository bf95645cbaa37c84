-- ===== src/Tenant.antt =====
-- api/v1alpha1/tenantcluster_types.go: the registration of a tenant's cluster.
use vcluster_private_cloud_c.Prelude.{ℕ, Bool, true, false, Option, none, some, List, String, Text}

pub record SyncConfig : Type 0 where
  pub services : Option Bool
  pub ingresses : Option Bool
  pub gateways : Option Bool
  pub storage : Option Bool
  pub service_load_balancer_class : Text

-- What the operator writes. `limits.loadBalancers` is at least 0 by the API's validation.
pub record TenantClusterSpec : Type 0 where
  pub kubeconfig_secret_name : Text
  pub kubeconfig_secret_key : Text
  pub host_namespace : Text
  pub node_selector : List (String × Text)
  pub allowed_domains : List Text
  pub ingress_class_name : Text
  pub gateway_class_name : Text
  pub load_balancers : Option ℕ
  pub sync : SyncConfig

-- The metadata that the program reads, and the specification.
pub record TenantCluster : Type 0 where
  pub name : Text
  pub namespace : Text
  pub uid : Text
  pub spec : TenantClusterSpec

-- `t.Spec.Sync.X == nil || *t.Spec.Sync.X`
abbrev default_true : Option Bool → Bool
default_true none = true
default_true (some b) = b

unfoldable pub sync_services : TenantCluster → Bool
sync_services t = default_true t.spec.sync.services

unfoldable pub sync_ingresses : TenantCluster → Bool
sync_ingresses t = default_true t.spec.sync.ingresses

unfoldable pub sync_gateways : TenantCluster → Bool
sync_gateways t = default_true t.spec.sync.gateways

unfoldable pub sync_storage : TenantCluster → Bool
sync_storage t = default_true t.spec.sync.storage

-- The limit and whether there is one.
unfoldable pub load_balancer_limit : TenantCluster → ℕ × Bool
load_balancer_limit t = elim t.spec.load_balancers [ none ↦ (0, false) | some n ↦ (n, true) ]
