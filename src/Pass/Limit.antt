-- ===== src/Pass/Limit.antt =====
-- internal/syncer/pass.go: the limit on endpoints that consume an address.
pub mod Order
pub mod Sorted
pub mod Admission
pub mod Kept
pub mod Withdrawal
mod Tests
use vcluster_private_cloud_c.Gateway.{HostGateway}
use vcluster_private_cloud_c.Go.{Library}
use vcluster_private_cloud_c.Meta.{Labels, ObjectMeta}
use vcluster_private_cloud_c.Ownership.{owned_by}
use vcluster_private_cloud_c.Pass.Refs.{
  Kind, service, gateway, GuestKey, Ref, same_key, same_ref, key_of, Refusal, address_limit, Pair,
  Pass, refuse,
}
use vcluster_private_cloud_c.Prelude.{
  ℕ, zero, suc, Bool, true, false, ◌&&◌, ◌||◌, Option, none, some, List, [], ◌∷◌, ◌++◌, map, Text,
  ◌==◌, text_lt, eqb, ltb, length, find, put, remove, has, without, if◌then◌else◌,
}
use vcluster_private_cloud_c.Service.{
  Service, ServiceType, cluster_ip, load_balancer, HostService, is_load_balancer,
}
use vcluster_private_cloud_c.Service.Mapping.{Mapped, mapped, cannot, map_service}
use vcluster_private_cloud_c.Tenant.{TenantCluster, load_balancer_limit}

-- `addressClaim`, before it is known whether the host holds it. The kind is that of the reference.
pub record Claim : Type 0 where
  pub ref : Ref
  pub host_name : Text
  pub created : ℕ
  pub uid : Text

-- The comparison handed to sort.Slice: by creation time, then by UID.
unfoldable pub before : Claim → Claim → Bool
before a b = if eqb a.created b.created then text_lt a.uid b.uid else ltb a.created b.created

-- sort.Slice with that comparison.
unfoldable pub insert_claim : Claim → List Claim → List Claim
insert_claim c [] = c ∷ []
insert_claim c (d ∷ claims) =
    let further = insert_claim c claims in if before c d then c ∷ d ∷ claims else d ∷ further

unfoldable pub sort_claims : List Claim → List Claim
sort_claims [] = []
sort_claims (c ∷ claims) = insert_claim c (sort_claims claims)

claim_of : Kind → Pair → Claim
claim_of kind pair = record {
  ref = record { kind = kind; key = key_of pair.guest };
  host_name = pair.host_name;
  created = pair.guest.created;
  uid = pair.guest.uid;
}

-- The claims of a pass, Services first.
unfoldable pub claims_of : Pass → List Claim
unfolding claim_of
claims_of p = map (claim_of service) p.lb_pairs ++ map (claim_of gateway) p.gateway_pairs

-- What the uncached reader answers for a name in the tenant's host namespace.
pub data Answer (A : Type 0) : Type 0 where
  found : A → Answer A
  missing failed : Answer A

pub record HostReader : Type 0 where
  pub service_at : Text → Answer (Labels × ServiceType)
  pub gateway_at : Text → Answer Labels

owned_service : TenantCluster → Answer (Labels × ServiceType) → Bool
owned_service tc (found (labels, svc_type)) = owned_by labels tc && is_load_balancer svc_type
owned_service tc missing = false
owned_service tc failed = false

owned_gateway : TenantCluster → Answer Labels → Bool
owned_gateway tc (found labels) = owned_by labels tc
owned_gateway tc missing = false
owned_gateway tc failed = false

exists_for : TenantCluster → HostReader → Bool → Kind → Text → Bool
unfolding owned_service owned_gateway
exists_for tc host gateway_api service name = owned_service tc (host.service_at name)
exists_for tc host gateway_api gateway name =
    if gateway_api then owned_gateway tc (host.gateway_at name) else false
exists_for tc host gateway_api _ name = false

-- Is the claim's host object there, ours, and holding an address?
unfoldable pub host_object_exists : TenantCluster → HostReader → Bool → Claim → Bool
unfolding exists_for
host_object_exists tc host gateway_api c = exists_for tc host gateway_api c.ref.kind c.host_name

-- The loop over the sorted claims, each with `existing`: how many are admitted in the end, and
-- which are refused.
unfoldable pub admit : ℕ → ℕ → List (Claim × Bool) → ℕ × List Claim
admit limit admitted [] = (admitted, [])
admit limit admitted ((c, existing) ∷ claims) =
    let next = admit limit (suc admitted) claims in
    let (total, refused) = admit limit admitted claims in
    if existing || ltb admitted limit then next else (total, c ∷ refused)

-- The first pair with the host name is taken out.
unfoldable pub drop_pair : Text → List Pair → List Pair
drop_pair name [] = []
drop_pair name (pair ∷ pairs) =
    if pair.host_name == name then pairs else pair ∷ drop_pair name pairs

pub if_mapped : Mapped → Option HostService
if_mapped (mapped backend) = some backend
if_mapped (cannot r) = none

pub downgraded : Library → TenantCluster → List Text → Option Service → Option HostService
unfolding if_mapped
downgraded lib tc host_families none = none
downgraded lib tc host_families (some guest) =
    if_mapped (map_service lib tc guest cluster_ip host_families)

-- The ClusterIP Service that takes the place of a LoadBalancer which something routes to.
unfoldable pub backend_for : Library → TenantCluster → List Text → Pass → Claim → Option HostService
unfolding downgraded
backend_for lib tc host_families p c =
    if has ◌==◌ c.host_name p.backend_needed
    then downgraded lib tc host_families (find same_key c.ref.key p.guest_svcs)
    else none

pub withdraw_service : Pass → Claim → Option HostService → Pass
withdraw_service p c (some backend) = record p {
  lb_pairs = drop_pair c.host_name p.lb_pairs;
  services = put ◌==◌ c.host_name backend p.services;
}
withdraw_service p c none = record p {
  lb_pairs = drop_pair c.host_name p.lb_pairs;
  services = remove ◌==◌ c.host_name p.services;
  want_finalizer = without same_ref c.ref p.want_finalizer;
}

pub withdraw_kind : Library → TenantCluster → List Text → Kind → Pass → Claim → Pass
unfolding withdraw_service
withdraw_kind lib tc host_families service p c =
    withdraw_service p c (backend_for lib tc host_families p c)
withdraw_kind lib tc host_families gateway p c = record p {
  gateway_pairs = drop_pair c.host_name p.gateway_pairs;
  gateways = remove ◌==◌ c.host_name p.gateways;
  want_finalizer = without same_ref c.ref p.want_finalizer;
}
withdraw_kind lib tc host_families _ p c = record p {
  want_finalizer = without same_ref c.ref p.want_finalizer;
}

unfoldable pub withdraw_claim : Library → TenantCluster → List Text → Pass → Claim → Pass
unfolding withdraw_kind
withdraw_claim lib tc host_families p c = withdraw_kind lib tc host_families c.ref.kind p c

unfoldable pub withdraw_all : Library → TenantCluster → List Text → ℕ → ℕ → List Claim → Pass → Pass
withdraw_all lib tc host_families limit admitted [] p = p
withdraw_all lib tc host_families limit admitted (c ∷ claims) p =
    withdraw_all lib tc host_families limit admitted claims
      (withdraw_claim lib tc host_families (refuse c.ref (address_limit limit admitted) p) c)

abbrev pub count_load_balancers : ℕ → Pass → Pass
count_load_balancers n p = record p { counts = record (p.counts) { load_balancers = n } }

abbrev pub marked : TenantCluster → HostReader → Bool → List Claim → List (Claim × Bool)
marked tc host gateway_api = map λ c. (c, host_object_exists tc host gateway_api c)

unfoldable pub apply_address_limit :
    Library → TenantCluster → HostReader → Bool → List Text → Pass → Pass
apply_address_limit lib tc host gateway_api host_families p =
    let (limit, capped) = load_balancer_limit tc in
    let claims = sort_claims (claims_of p) in
    let (admitted, refused) = admit limit 0 (marked tc host gateway_api claims) in
    if capped
    then withdraw_all lib tc host_families limit admitted refused (count_load_balancers admitted p)
    else count_load_balancers (length claims) p
