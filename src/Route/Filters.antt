-- ===== src/Route/Filters.antt =====
-- internal/syncer/gateway.go: `mapFilters`.
use vcluster_private_cloud_c.Gathered.{Gathered, nothing}
use vcluster_private_cloud_c.Go.{Library}
use vcluster_private_cloud_c.Ownership.{host_object_name}
use vcluster_private_cloud_c.Prelude.{Option, none, some, List, [], ◌∷◌, Text, codes, if◌then◌else◌}
use vcluster_private_cloud_c.Route.{
  BackendObject, Filter, FilterType, extension_ref, request_mirror, other, Where, Refusal,
  extension, mirror_kind, mirror_namespace, mirror_backend, other_than,
}
use vcluster_private_cloud_c.Service.Mapping.{Unresolved}
use vcluster_private_cloud_c.Tenant.{TenantCluster}

abbrev name_or_empty : Option Text → Text
name_or_empty none = []
name_or_empty (some n) = n

-- The object under its host name, in the one namespace that all of the tenant's host objects share.
unfoldable pub host_object : Library → TenantCluster → Text → BackendObject → BackendObject
host_object lib tc guest_ns b = record b {
  namespace = none;
  name = host_object_name lib tc.name guest_ns b.name;
}

module _ (lib : Library) (tc : TenantCluster) (guest_ns : Text) (at : Where)
    (resolve : Text → Option Unresolved) where
  -- The tests of a mirrored backend, in their order.
  unfoldable pub map_mirror :
      Filter → BackendObject → Gathered Refusal Filter → Gathered Refusal Filter
  map_mirror f b rest =
      if other_than (codes "Service") b.kind
      then record rest { refusals = mirror_kind at b.name ∷ rest.refusals }
      else if other_than guest_ns b.namespace
      then record rest { refusals = mirror_namespace at b.name ∷ rest.refusals }
      else elim (resolve b.name) [
        | some msg ↦ record rest { refusals = mirror_backend at b.name msg ∷ rest.refusals }
        | none ↦ record rest {
          kept = record f { mirror = some (host_object lib tc guest_ns b) } ∷ rest.kept;
          backends = b.name ∷ rest.backends;
        }
      ]

  unfoldable pub map_filter :
      FilterType → Filter → Gathered Refusal Filter → Gathered Refusal Filter
  map_filter extension_ref f rest = record rest {
    refusals = extension at (name_or_empty f.extension) ∷ rest.refusals;
  }
  map_filter request_mirror f rest = elim f.mirror [ none ↦ rest | some b ↦ map_mirror f b rest ]
  map_filter (other t) f rest = record rest { kept = f ∷ rest.kept }

  unfoldable pub map_filters : List Filter → Gathered Refusal Filter
  unfolding map_filter map_mirror
  map_filters [] = nothing
  map_filters (f ∷ filters) = let rest = map_filters filters in map_filter f.filter_type f rest
