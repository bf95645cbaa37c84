-- ===== src/Pass/Gather.antt =====
-- internal/syncer/pass.go: what a pass reads from the guest, and what it then desires on the host.
pub mod Http
pub mod Pinned
pub mod Holders
pub mod Reached
mod Tests
use vcluster_private_cloud_c.Gateway.{Gateway, HostGateway, GatewayResult, map_gateway}
use vcluster_private_cloud_c.Go.{Library}
use vcluster_private_cloud_c.Ingress.{Ingress, HostIngress, IngressResult, map_ingress}
use vcluster_private_cloud_c.Meta.{ObjectMeta}
use vcluster_private_cloud_c.Ownership.{guest_finalizer, host_object_name}
use vcluster_private_cloud_c.Pass.Refs.{
  Kind, service, ingress, gateway, route, GuestKey, Ref, same_key, same_ref, key_of, Refusal,
  of_service, of_ingress, of_gateway, of_route, Pass, Pair, Counts, refuse,
}
use vcluster_private_cloud_c.Pass.Listing.{ApiError}
use vcluster_private_cloud_c.Route.{HttpRoute, HostRoute, RouteResult}
use vcluster_private_cloud_c.Route.Rules.{map_http_route}
use vcluster_private_cloud_c.Service.{
  Service, HostService, load_balancer, cluster_ip, wants_load_balancer,
}
use vcluster_private_cloud_c.Service.Mapping.{
  Mapped, mapped, cannot, map_service, Unresolved, not_found, being_deleted, not_mapped,
}
use vcluster_private_cloud_c.Tenant.{TenantCluster, sync_services}
use vcluster_private_cloud_c.Pass.Listing.{Listing, items, no_match, list_failed}
use vcluster_private_cloud_c.Prelude.{
  ℕ, suc, Bool, true, false, Option, none, some, List, [], ◌∷◌, ◌++◌, Text, ◌==◌, find, put,
  if◌then◌else◌,
}

abbrev pub has_finalizer : Text → List Text → Bool
has_finalizer f [] = false
has_finalizer f (x ∷ xs) = if x == f then true else has_finalizer f xs

-- The object's reference is noted if the object carries our finalizer.
unfoldable pub note_finalizer_holder : ObjectMeta → Ref → Pass → Pass
note_finalizer_holder obj ref p =
    if has_finalizer guest_finalizer obj.finalizers
    then record p { seen_finalizer = p.seen_finalizer ++ (obj, ref) ∷ [] }
    else p

unfoldable pub refuse_all : {R : Type 0} → (R → Refusal) → Ref → List R → Pass → Pass
refuse_all say ref [] p = p
refuse_all say ref (r ∷ rs) p = refuse_all say ref rs (refuse ref (say r) p)

-- `p.wantFinalizer[ref] = true`
abbrev pub want : Ref → Pass → Pass
want ref p = record p { want_finalizer = ref ∷ p.want_finalizer }

abbrev pub ref_of : Kind → ObjectMeta → Ref
ref_of kind obj = record { kind = kind; key = key_of obj }

abbrev pub hold : Ref → ObjectMeta → Pass → Pass
hold ref obj p = record p { guest_objs = put same_ref ref obj p.guest_objs }

pub index_services : List Service → List (GuestKey × Service) → List (GuestKey × Service)
index_services [] m = m
index_services (s ∷ ss) m = index_services ss (put same_key (key_of s.meta) s m)

pub publish_service : Service → Ref → Mapped → Pass → Pass
publish_service svc ref (cannot r) p = refuse ref (of_service r) p
publish_service svc ref (mapped host) p = want ref (record p {
  services = put ◌==◌ host.name host p.services;
  lb_pairs = p.lb_pairs ++ record { guest = svc.meta; host_name = host.name } ∷ [];
  host_owner = put ◌==◌ host.name ref p.host_owner;
})

abbrev count_service : Pass → Pass
count_service p = record p { counts = record (p.counts) { services = suc p.counts.services } }

-- The body of the loop over the guest Services.
unfoldable pub gather_service : Library → TenantCluster → List Text → Service → Pass → Pass
unfolding publish_service
gather_service lib tc host_families svc p =
    let ref = ref_of service svc.meta in
    let noted = note_finalizer_holder svc.meta ref p in
    if wants_load_balancer tc svc
    then (if svc.meta.deleting
        then noted
        else publish_service svc ref (map_service lib tc svc load_balancer host_families)
            (count_service (hold ref svc.meta noted)))
    else p

pub gather_each : Library → TenantCluster → List Text → List (GuestKey × Service) → Pass → Pass
gather_each lib tc host_families [] p = p
gather_each lib tc host_families ((k, svc) ∷ svcs) p =
    gather_each lib tc host_families svcs (gather_service lib tc host_families svc p)

-- `none` is an error that ends the pass.
unfoldable pub gather_services :
    Library → TenantCluster → List Text → Listing Service → Pass → Option Pass
unfolding index_services gather_each
gather_services lib tc host_families (items svcs) p =
    let q = record p { guest_svcs = index_services svcs p.guest_svcs } in
    some (if sync_services tc then gather_each lib tc host_families q.guest_svcs q else q)
gather_services lib tc host_families (no_match e) p = none
gather_services lib tc host_families (list_failed e) p = none

resolved : Library → TenantCluster → List Text → Option Service → Option Unresolved
resolved lib tc host_families none = some not_found
resolved lib tc host_families (some svc) =
    if svc.meta.deleting
    then some being_deleted
    else elim (map_service lib tc svc cluster_ip host_families) [
      | mapped host ↦ none
      | cannot r ↦ some (not_mapped r)
    ]

-- Can the host reach the guest Service of that name? `none` is yes.
unfoldable pub backend_resolver :
    Library → TenantCluster → List Text → Pass → Text → Text → Option Unresolved
unfolding resolved
backend_resolver lib tc host_families p namespace name =
    resolved lib tc host_families
      (find same_key (record { namespace = namespace; name = name }) p.guest_svcs)

pub place_backend : Text → Ref → Service → Mapped → Pass → Pass
place_backend host_name ref svc (cannot r) p = p
place_backend host_name ref svc (mapped host) p =
    want ref (hold ref svc.meta (record p { services = put ◌==◌ host_name host p.services }))

pub place_if_absent :
    Library → TenantCluster → List Text → Text → Ref → Service → Option HostService → Pass → Pass
place_if_absent lib tc host_families host_name ref svc (some there) p = p
place_if_absent lib tc host_families host_name ref svc none p =
    place_backend host_name ref svc (map_service lib tc svc cluster_ip host_families) p

pub add_backend_of : Library → TenantCluster → List Text → GuestKey → Option Service → Pass → Pass
add_backend_of lib tc host_families key none p = p
add_backend_of lib tc host_families key (some svc) p =
    let host_name = host_object_name lib tc.name key.namespace key.name in
    place_if_absent lib tc host_families host_name (record { kind = service; key = key }) svc
      (find ◌==◌ host_name p.services) (record p { backend_needed = host_name ∷ p.backend_needed })

unfoldable pub add_backends : Library → TenantCluster → List Text → Text → List Text → Pass → Pass
unfolding add_backend_of place_if_absent place_backend
add_backends lib tc host_families namespace [] p = p
add_backends lib tc host_families namespace (name ∷ names) p =
    let key : GuestKey = record { namespace = namespace; name = name } in
    add_backends lib tc host_families namespace names
      (add_backend_of lib tc host_families key (find same_key key p.guest_svcs) p)
