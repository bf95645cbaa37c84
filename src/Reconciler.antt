-- ===== src/Reconciler.antt =====
-- internal/syncer/tenantcluster_controller.go: the deletion of a TenantCluster, the clients for the
-- guests' API servers, and the address families of the host.
pub mod LetGo
pub mod Clients
mod Tests
use vcluster_private_cloud_c.Go.{Library}
use vcluster_private_cloud_c.KubeVirt.{Vms}
use vcluster_private_cloud_c.Ownership.{owned_by}
use vcluster_private_cloud_c.Pass.Apply.{Reply, have, absent, error}
use vcluster_private_cloud_c.Pass.Listing.{Listing, items, no_match, list_failed, ApiError}
use vcluster_private_cloud_c.Pass.Prune.{HostObject, Host, Deleter}
use vcluster_private_cloud_c.Prelude.{
  ℕ, zero, suc, Bool, true, false, not, ◌||◌, Option, none, some, List, [], ◌∷◌, ◌++◌, Text, codes,
  ◌==◌, find, put, is_empty, if◌then◌else◌,
}
use vcluster_private_cloud_c.Tenant.{TenantCluster}
use vcluster_private_cloud_c.Volumes.{World}
use vcluster_private_cloud_c.Volumes.Deletion.{Result, stopped, ended, storage_teardown}

-- The objects whose deletion was asked for so far, and whether one of the calls failed.
pub record Deleting : Type 0 where
  pub failed : Bool
  pub deleted : List HostObject

unfoldable pub after_delete : Option ApiError → Bool → Bool
after_delete none failed = failed
after_delete (some e) failed = true

-- The closure `del`, and its loop over a listing.
unfoldable pub delete_object : TenantCluster → Deleter → HostObject → Deleting → Deleting
unfolding after_delete
delete_object tc answer obj s =
    if owned_by obj.labels tc
    then record { failed = after_delete (answer obj) s.failed; deleted = s.deleted ++ obj ∷ [] }
    else s

unfoldable pub delete_objects : TenantCluster → Deleter → List HostObject → Deleting → Deleting
delete_objects tc answer [] s = s
delete_objects tc answer (obj ∷ objs) s =
    delete_objects tc answer objs (delete_object tc answer obj s)

-- How a reconciliation of a deleted TenantCluster ends, with the deletions asked for: with an
-- error, with another try later, or with the TenantCluster let go.
pub data Ending : Type 0 where
  aborted again let_go : List HostObject → Ending

-- A listing of a kind that the host must know, and one of a kind that it may not know.
unfoldable pub delete_kind :
    TenantCluster → Deleter → Listing HostObject → (Deleting → Ending) → Deleting → Ending
delete_kind tc answer (items objs) next s = next (delete_objects tc answer objs s)
delete_kind tc answer (no_match e) next s = aborted s.deleted
delete_kind tc answer (list_failed e) next s = aborted s.deleted

unfoldable pub delete_optional :
    TenantCluster → Deleter → Listing HostObject → (Deleting → Ending) → Deleting → Ending
delete_optional tc answer (items objs) next s = next (delete_objects tc answer objs s)
delete_optional tc answer (no_match e) next s = next s
delete_optional tc answer (list_failed e) next s = aborted s.deleted

unfoldable pub settle : Bool → Deleting → Ending
settle storage_done s = if s.failed || not storage_done then again s.deleted else let_go s.deleted

unfoldable pub after_storage : TenantCluster → Deleter → Bool → Host → Result → Ending
after_storage tc answer gateway_api host stopped = aborted []
after_storage tc answer gateway_api host (ended t) =
    delete_kind tc answer host.services
      (delete_kind tc answer host.ingresses (λ s.
        if gateway_api
        then delete_optional tc answer host.gateways
            (delete_optional tc answer host.routes (settle t.done)) s
        else settle t.done s))
      (record { failed = false; deleted = [] })

-- `reconcileDelete`, for a TenantCluster that carries the finalizer: first the storage, then the
-- other objects. When it ends in `let_go`, what is left is the cleanup inside the guest, whose
-- errors are ignored, and the removal of the finalizer.
unfoldable pub reconcile_delete :
    Library
    → TenantCluster
    → World
    → Bool
    → Listing HostObject
    → Option Vms
    → Deleter
    → Bool
    → Host
    → Ending
unfolding after_storage
reconcile_delete lib tc w hot claims machines answer gateway_api host =
    after_storage tc answer gateway_api host (storage_teardown lib tc w hot claims machines)

-- A Secret, and a client that was built of the data of one version of it.
pub record Secret : Type 0 where
  pub version : Text
  pub data_at : List (Text × Text)

-- `cachedGuest`, under the identifier of its TenantCluster.
abbrev pub Cache : Type 0 → Type 0
Cache Client = List (Text × (Text × Client))

abbrev pub default_kubeconfig_key : Text
default_kubeconfig_key = codes "kubeconfig"

abbrev pub kubeconfig_key : TenantCluster → Text
kubeconfig_key tc =
    if is_empty tc.spec.kubeconfig_secret_key
    then default_kubeconfig_key
    else tc.spec.kubeconfig_secret_key

abbrev pub data_of : Option Text → Text
data_of none = []
data_of (some d) = d

module _ {Client : Type 0} (factory : Text → Option Client) where
  unfoldable pub build : TenantCluster → Text → Text → Cache Client → Option Client × Cache Client
  build tc version config cache = elim (factory config) [
    | none ↦ (none, cache)
    | some c ↦ (some c, put ◌==◌ tc.uid (version, c) cache)
  ]

  unfoldable pub cached_or_built :
      TenantCluster
      → Text
      → Text
      → Option (Text × Client)
      → Cache Client
      → Option Client × Cache Client
  cached_or_built tc version config none cache = build tc version config cache
  cached_or_built tc version config (some (at, c)) cache =
      let fresh = build tc version config cache in if at == version then (some c, cache) else fresh

  -- `guestClientFor`: a client, or an error, and the cache afterwards.
  unfoldable pub guest_client_for :
      TenantCluster → Reply Secret → Cache Client → Option Client × Cache Client
  unfolding cached_or_built build
  guest_client_for tc absent cache = (none, cache)
  guest_client_for tc (error e) cache = (none, cache)
  guest_client_for tc (have sec) cache =
      let config = data_of (find ◌==◌ (kubeconfig_key tc) sec.data_at) in
      let found = cached_or_built tc sec.version config (find ◌==◌ tc.uid cache) cache in
      if is_empty config then (none, cache) else found

-- The families that an address range is of, by a parser that says whether it is of IPv4.
seen_families : (Text → Option Bool) → List Text → Bool × Bool → Bool × Bool
seen_families parse [] s = s
seen_families parse (cidr ∷ cidrs) (v4, v6) = elim (parse cidr) [
  | none ↦ seen_families parse cidrs (v4, v6)
  | some four ↦ seen_families parse cidrs (if four then (true, v6) else (v4, true))
]

families_of : Bool × Bool → List Text
families_of (v4, v6) =
    (if v4 then codes "IPv4" ∷ [] else []) ++ (if v6 then codes "IPv6" ∷ [] else [])

all_ranges : List (List Text) → List Text
all_ranges [] = []
all_ranges (cidrs ∷ rest) = cidrs ++ all_ranges rest

-- Of the ranges of every ServiceCIDR that the host lists; none if it cannot tell.
unfoldable pub host_address_families : (Text → Option Bool) → Listing (List Text) → List Text
unfolding seen_families families_of all_ranges
host_address_families parse (items cidrs) =
    families_of (seen_families parse (all_ranges cidrs) (false, false))
host_address_families parse (no_match e) = []
host_address_families parse (list_failed e) = []
