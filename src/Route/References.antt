-- ===== src/Route/References.antt =====
-- When the references of an HTTPRoute are safe on the host, and that mapped filters are.
use vcluster_private_cloud_c.Gathered.{Gathered}
use vcluster_private_cloud_c.Go.{Library}
use vcluster_private_cloud_c.Ownership.{host_object_name}
use vcluster_private_cloud_c.Prelude.{
  ==_iff, ◌⊎◌, false, ◌≡◌, ◌≢◌, inl, inr, refl, Option, none, some, List, [], ◌∷◌, Text, codes,
  arith, All, All-imp, Member, Bool-cases, Option-cases,
}
use vcluster_private_cloud_c.Route.{
  BackendObject, Filter, FilterType, extension_ref, request_mirror, other, BackendRef, RouteRule,
  Where, Refusal, other_than,
}
use vcluster_private_cloud_c.Route.Filters.{host_object, map_mirror, map_filter, map_filters}
use vcluster_private_cloud_c.Service.Mapping.{Unresolved}
use vcluster_private_cloud_c.Tenant.{TenantCluster}

-- The value is not given, or is the one that is wanted.
abbrev pub NoneOr : Text → Option Text → Type 0
NoneOr want o = (o ≡ none) ⊎ (o ≡ some want)

pub other_than-NoneOr : (want : Text) (o : Option Text) → other_than want o ≡ false → NoneOr want o
unfolding other_than
other_than-NoneOr want none e = inl refl
other_than-NoneOr want (some k) e = inr (ground (arith, ==_iff k want))

-- What a reference to an object is for.
pub data Role : Type 0 where
  backend mirror auth : Role

module _ (lib : Library) (tc : TenantCluster) (guest_ns : Text) (resolve : Text → Option Unresolved)
    (Given : Role → BackendObject → Type 0) where
  -- A reference that the guest gave, to a Service of the route's namespace that the host can reach
  -- and for which a host Service is asked, under the name of that host Service. Its group and its
  -- port are the guest's.
  abbrev pub ObjectIsSafe : Role → (Text → Type 0) → BackendObject → Type 0
  ObjectIsSafe role Asked o =
      (b : BackendObject) × Given role b
      × NoneOr (codes "Service") b.kind
      × NoneOr guest_ns b.namespace
      × (o ≡ record {
        group = b.group;
        kind = b.kind;
        namespace = none;
        name = host_object_name lib tc.name guest_ns b.name;
        port = b.port;
      })
      × (resolve b.name ≡ none)
      × Asked b.name

  -- The references of a guest's filter, backend and rule are given by the guest.
  abbrev pub Gives : Filter → Type 0
  Gives f =
      ((o : BackendObject) → f.external_auth ≡ some o → Given auth o)
      × ((o : BackendObject) → f.mirror ≡ some o → Given mirror o)

  abbrev pub BackendGives : BackendRef → Type 0
  BackendGives b = Given backend b.object × All Gives b.filters

  abbrev pub RuleGives : RouteRule → Type 0
  RuleGives r = All Gives r.filters × All BackendGives r.backend_refs

  -- No host extension, a mirrored backend only as above, and for authorization, which no test
  -- looks at, only a reference that the guest gave for it.
  abbrev pub FilterIsSafe : (Text → Type 0) → Filter → Type 0
  FilterIsSafe Asked f =
      (f.filter_type ≢ extension_ref)
      × (f.filter_type ≡ request_mirror
          → (o : BackendObject) × (f.mirror ≡ some o) × ObjectIsSafe mirror Asked o)
      × ((o : BackendObject) → f.external_auth ≡ some o → Given auth o)

  abbrev pub BackendIsSafe : (Text → Type 0) → BackendRef → Type 0
  BackendIsSafe Asked b = ObjectIsSafe backend Asked b.object × All (FilterIsSafe Asked) b.filters

  abbrev pub RuleIsSafe : (Text → Type 0) → RouteRule → Type 0
  RuleIsSafe Asked r = All (FilterIsSafe Asked) r.filters × All (BackendIsSafe Asked) r.backend_refs

  module _ (P Q : Text → Type 0) (f : (n : Text) → P n → Q n) where
    pub ObjectIsSafe-imp :
        (role : Role) (o : BackendObject) → ObjectIsSafe role P o → ObjectIsSafe role Q o
    ObjectIsSafe-imp role o (b, g, k, n, e, r, a) = (b, g, k, n, e, r, f b.name a)

    pub FilterIsSafe-imp : (x : Filter) → FilterIsSafe P x → FilterIsSafe Q x
    FilterIsSafe-imp x (plain, mirrored, gives) =
        (plain, λ e. let (o, m, s) = mirrored e in (o, m, ObjectIsSafe-imp mirror o s), gives)

    pub BackendIsSafe-imp : (b : BackendRef) → BackendIsSafe P b → BackendIsSafe Q b
    BackendIsSafe-imp b (o, fs) =
        (ObjectIsSafe-imp backend b.object o, All-imp FilterIsSafe-imp b.filters fs)

    pub RuleIsSafe-imp : (r : RouteRule) → RuleIsSafe P r → RuleIsSafe Q r
    RuleIsSafe-imp r (fs, bs) =
        (All-imp FilterIsSafe-imp r.filters fs, All-imp BackendIsSafe-imp r.backend_refs bs)

  abbrev pub Resolves : Text → Type 0
  Resolves n = resolve n ≡ none

  abbrev pub FiltersAreSafe : Gathered Refusal Filter → Type 0
  FiltersAreSafe g = All (FilterIsSafe (λ n. Member n g.backends)) g.kept × All Resolves g.backends

  abbrev pub BackendsAreSafe : Gathered Refusal BackendRef → Type 0
  BackendsAreSafe g =
      All (BackendIsSafe (λ n. Member n g.backends)) g.kept × All Resolves g.backends

  abbrev pub RulesAreSafe : Gathered Refusal RouteRule → Type 0
  RulesAreSafe g = All (RuleIsSafe (λ n. Member n g.backends)) g.kept × All Resolves g.backends

  map_mirror-safe :
      (at : Where) (f : Filter) (b : BackendObject) (rest : Gathered Refusal Filter)
      → f.filter_type ≡ request_mirror
      → f.mirror ≡ some b
      → Gives f
      → FiltersAreSafe rest
      → FiltersAreSafe (map_mirror lib tc guest_ns at resolve f b rest)
  unfolding map_mirror host_object
  map_mirror-safe at f b rest t m g (k, r) =
      elim (Bool-cases (other_than (codes "Service") b.kind)) [
        | inl bad ↦ rw bad (k, r)
        | inr kind ↦ elim (Bool-cases (other_than guest_ns b.namespace)) [
          | inl bad ↦ rw (kind, bad) (k, r)
          | inr here ↦ elim (Option-cases (resolve b.name)) [
            | inr (msg, e) ↦ rw (kind, here, e, map_mirror) (k, r)
            | inl e ↦
                rw (kind, here, e, map_mirror)
                  (
                    (
                      (
                        λ x. ground arith,
                        λ _. (
                          host_object lib tc guest_ns b,
                          refl,
                          (
                            b,
                            g.1 b m,
                            other_than-NoneOr (codes "Service") b.kind kind,
                            other_than-NoneOr guest_ns b.namespace here,
                            refl,
                            e,
                            inl refl,
                          ),
                        ),
                        g.0,
                      ),
                      All-imp
                          (FilterIsSafe-imp (λ n. Member n rest.backends)
                            (λ n. Member n (b.name ∷ rest.backends)) (λ n m. inr m))
                          rest.kept k,
                    ),
                    (e, r),
                  )
          ]
        ]
      ]

  map_filter-safe :
      (at : Where) (t : FilterType) (f : Filter) (rest : Gathered Refusal Filter)
      → f.filter_type ≡ t
      → Gives f
      → FiltersAreSafe rest
      → FiltersAreSafe (map_filter lib tc guest_ns at resolve t f rest)
  unfolding map_filter
  map_filter-safe at extension_ref f rest t g s = s
  map_filter-safe at request_mirror f rest t g s = elim (Option-cases f.mirror) [
    | inl e ↦ rw (e, map_filter) s
    | inr (b, e) ↦ rw (e, map_filter) (map_mirror-safe at f b rest t e g s)
  ]
  map_filter-safe at (other l) f rest t g (k, r) =
      (((λ x. ground arith, λ x. absurd (ground arith), g.0), k), r)

  pub map_filters-safe :
      (at : Where) (filters : List Filter)
      → All Gives filters
      → FiltersAreSafe (map_filters lib tc guest_ns at resolve filters)
  unfolding map_filters
  map_filters-safe at [] g = (tt, tt)
  map_filters-safe at (f ∷ filters) (g, gs) =
      map_filter-safe at f.filter_type f (map_filters lib tc guest_ns at resolve filters) refl g
        (map_filters-safe at filters gs)
