-- ===== src/Pass/Refs.antt =====
-- internal/syncer/pass.go: references to guest objects, and the state of a pass.
use vcluster_private_cloud_c.Gateway
use vcluster_private_cloud_c.Gateway.{HostGateway}
use vcluster_private_cloud_c.Ingress
use vcluster_private_cloud_c.Ingress.{HostIngress}
use vcluster_private_cloud_c.Meta.{ObjectMeta}
use vcluster_private_cloud_c.Pass.Listing.{ApiError}
use vcluster_private_cloud_c.Prelude.{
  ◌++◌, ℕ, ◌≡◌, ◌↔◌, Bool, true, false, ◌&&◌, List, [], ◌∷◌, Text, ◌==◌, ==_iff, eqb, arith,
}
use vcluster_private_cloud_c.Route
use vcluster_private_cloud_c.Route.{HostRoute}
use vcluster_private_cloud_c.Service.{Service, HostService}
use vcluster_private_cloud_c.Service.Mapping
use vcluster_private_cloud_c.Storage

-- svcGVK, ingressGVK, gatewayGVK, routeGVK and pvcGVK.
pub data Kind : Type 0 where
  service ingress gateway route volume_claim : Kind

abbrev number : Kind → ℕ
number service = 0
number ingress = 1
number gateway = 2
number route = 3
number volume_claim = 4

-- `guestKey` and `guestObjRef`
pub record GuestKey : Type 0 where
  pub namespace : Text
  pub name : Text

pub record Ref : Type 0 where
  pub kind : Kind
  pub key : GuestKey

unfoldable pub same_key : GuestKey → GuestKey → Bool
same_key a b = a.namespace == b.namespace && a.name == b.name

unfoldable pub same_ref : Ref → Ref → Bool
unfolding same_key
same_ref a b = eqb (number a.kind) (number b.kind) && same_key a.key b.key

pub same_key_iff : (a b : GuestKey) → (same_key a b ≡ true) ↔ (a ≡ b)
unfolding same_key
same_key_iff a b = ground (arith, ==_iff a.namespace b.namespace, ==_iff a.name b.name)

number-inj : (a b : Kind) → number a ≡ number b → a ≡ b
number-inj a b e = ground arith

pub same_ref_iff : (a b : Ref) → (same_ref a b ≡ true) ↔ (a ≡ b)
unfolding same_ref
same_ref_iff a b = (to, from)
  where
    to : same_ref a b ≡ true → a ≡ b
    to h =
        let kinds = number-inj a.kind b.kind (ground arith) in
        let keys = (same_key_iff a.key b.key).0 (ground arith) in ground arith

    from : a ≡ b → same_ref a b ≡ true
    from e = ground (arith, same_key_iff a.key b.key)

-- The metadata of a guest object as a key.
abbrev pub key_of : ObjectMeta → GuestKey
key_of m = record { namespace = m.namespace; name = m.name }

-- What is written on a guest object, with the values that each text names.
pub data Refusal : Type 0 where
  of_service : Mapping.Refusal → Refusal
  of_ingress : Ingress.Refusal → Refusal
  of_gateway : Gateway.Refusal → Refusal
  of_route : Route.Refusal → Refusal
  of_claim : Storage.Refusal → Refusal
  address_limit : ℕ → ℕ → Refusal
  host_rejected : Kind → ApiError → Refusal

-- `svcPair`, `ingressPair` and `gatewayPair`: a guest object and the host object made of it.
pub record Pair : Type 0 where
  pub guest : ObjectMeta
  pub host_name : Text

pub record Counts : Type 0 where
  pub services : ℕ
  pub ingresses : ℕ
  pub gateways : ℕ
  pub http_routes : ℕ
  pub load_balancers : ℕ
  pub persistent_volume_claims : ℕ

-- What a pass notes for the TenantCluster's status, in the order of the notes.
pub data Problem : Type 0 where
  collision : Kind → Text → Problem
  apply_failed : Kind → Text → ApiError → Problem
  prune_failed : ApiError → Problem
  delete_failed : Text → ApiError → Problem
  finalizer_failed : Ref → ApiError → Problem
  storage_failed : Text → ApiError → Problem

-- `pass`, less its storage slice and its collaborators, which the operations take as arguments.
-- Maps to `bool` are the lists of their keys.
pub record Pass : Type 0 where
  pub services : List (Text × HostService)
  pub ingresses : List (Text × HostIngress)
  pub gateways : List (Text × HostGateway)
  pub routes : List (Text × HostRoute)
  pub guest_svcs : List (GuestKey × Service)
  pub backend_needed : List Text
  pub host_owner : List (Text × Ref)
  pub guest_objs : List (Ref × ObjectMeta)
  pub lb_pairs : List Pair
  pub ingress_pairs : List Pair
  pub gateway_pairs : List Pair
  pub want_finalizer : List Ref
  pub seen_finalizer : List (ObjectMeta × Ref)
  pub refusals : List (Ref × Refusal)
  pub counts : Counts
  pub problems : List Problem
  pub prune_failed : Bool

abbrev pub new_pass : Pass
new_pass = record {
  services = [];
  ingresses = [];
  gateways = [];
  routes = [];
  guest_svcs = [];
  backend_needed = [];
  host_owner = [];
  guest_objs = [];
  lb_pairs = [];
  ingress_pairs = [];
  gateway_pairs = [];
  want_finalizer = [];
  seen_finalizer = [];
  refusals = [];
  counts = record {
    services = 0;
    ingresses = 0;
    gateways = 0;
    http_routes = 0;
    load_balancers = 0;
    persistent_volume_claims = 0;
  };
  problems = [];
  prune_failed = false;
}

unfoldable pub refuse : Ref → Refusal → Pass → Pass
refuse ref msg p = record p { refusals = p.refusals ++ (ref, msg) ∷ [] }
