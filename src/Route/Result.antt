-- ===== src/Route/Result.antt =====
-- The host HTTPRoute as a whole.
use vcluster_private_cloud_c.Go.{Library}
use vcluster_private_cloud_c.Ownership.{host_object_name, ownership_labels}
use vcluster_private_cloud_c.Prelude.{
  ◌≡◌, ◌≢◌, inl, inr, refl, false, ◌&&◌, not, Option, some, List, [], ◌∷◌, Text, is_empty, arith,
  All, All-imp, All-self, Any, ◌⊎◌, Member, sorted_names, Member-sorted_names, Bool-cases,
}
use vcluster_private_cloud_c.Route.{
  BackendObject, Filter, BackendRef, RouteRule, HttpRoute, HostRoute, RouteResult,
}
use vcluster_private_cloud_c.Route.References.{
  Role, backend, mirror, auth, Gives, BackendGives, RuleGives, RuleIsSafe, RuleIsSafe-imp,
}
use vcluster_private_cloud_c.Route.Safety.{
  ParentIsSafe, NameIsSafe, map_rules-safe, map_parents-safe, map_hostnames-safe,
}
use vcluster_private_cloud_c.Route.Rules.{
  map_hostnames, map_parents, map_rules, host_route, map_http_route,
}
use vcluster_private_cloud_c.Service.Mapping.{Unresolved}
use vcluster_private_cloud_c.Tenant.{TenantCluster}

-- The references that a guest's route holds, by what they are for.
abbrev pub InFilter : Role → BackendObject → Filter → Type 0
InFilter backend o f = ⊥
InFilter mirror o f = f.mirror ≡ some o
InFilter auth o f = f.external_auth ≡ some o

abbrev pub AsBackend : Role → BackendObject → BackendRef → Type 0
AsBackend backend o b = b.object ≡ o
AsBackend _ o b = ⊥

abbrev pub InBackend : Role → BackendObject → BackendRef → Type 0
InBackend role o b = AsBackend role o b ⊎ Any (InFilter role o) b.filters

abbrev pub InRule : Role → BackendObject → RouteRule → Type 0
InRule role o r = Any (InFilter role o) r.filters ⊎ Any (InBackend role o) r.backend_refs

abbrev pub GivenBy : HttpRoute → Role → BackendObject → Type 0
GivenBy guest role o = Any (InRule role o) guest.rules

module _ (lib : Library) (tc : TenantCluster) (ns : Text) (resolve : Text → Option Unresolved)
    (Given : Role → BackendObject → Type 0) where
  filters-Gives :
      (fs : List Filter)
      → ((role : Role) (o : BackendObject) → Any (InFilter role o) fs → Given role o)
      → All (Gives lib tc ns resolve Given) fs
  filters-Gives [] k = tt
  filters-Gives (f ∷ fs) k = (
    (λ o e. k auth o (inl e), λ o e. k mirror o (inl e)),
    filters-Gives fs (λ role o m. k role o (inr m)),
  )

  backends-Give :
      (bs : List BackendRef)
      → ((role : Role) (o : BackendObject) → Any (InBackend role o) bs → Given role o)
      → All (BackendGives lib tc ns resolve Given) bs
  backends-Give [] k = tt
  backends-Give (b ∷ bs) k = (
    (
      k backend b.object (inl (inl refl)),
      filters-Gives b.filters (λ role o m. k role o (inl (inr m))),
    ),
    backends-Give bs (λ role o m. k role o (inr m)),
  )

  rules-Give :
      (rules : List RouteRule)
      → ((role : Role) (o : BackendObject) → Any (InRule role o) rules → Given role o)
      → All (RuleGives lib tc ns resolve Given) rules
  rules-Give [] k = tt
  rules-Give (r ∷ rules) k = (
    (
      filters-Gives r.filters (λ role o m. k role o (inl (inl m))),
      backends-Give r.backend_refs (λ role o m. k role o (inl (inr m))),
    ),
    rules-Give rules (λ role o m. k role o (inr m)),
  )

-- What is safe of a host HTTPRoute, and the references of the guest that stay in it.
pub record HostRouteIsSafe (lib : Library) (tc : TenantCluster) (guest : HttpRoute)
    (resolve : Text → Option Unresolved) (r : RouteResult) (h : HostRoute) : Type 0 where
  pub hostnames : All (NameIsSafe lib tc guest.meta.namespace resolve (GivenBy guest)) h.hostnames
  pub explicit : guest.hostnames ≢ [] → h.hostnames ≢ []
  pub parents :
      All
        (ParentIsSafe lib tc guest.meta.namespace resolve (GivenBy guest) guest.parent_refs)
        h.parent_refs
  pub some_parent : h.parent_refs ≢ []
  pub rules :
      All
        (RuleIsSafe lib tc guest.meta.namespace resolve (GivenBy guest) (λ n. Member n r.backends))
        h.rules
  pub name : h.name ≡ host_object_name lib tc.name guest.meta.namespace guest.meta.name
  pub namespace : h.namespace ≡ tc.spec.host_namespace
  pub labels : h.labels ≡ ownership_labels tc guest.meta

filled_names :
    (given kept : List Text)
    → (not (is_empty given) && is_empty kept) ≡ false
    → given ≢ []
    → kept ≢ []
filled_names [] kept e some_given blank = some_given refl
filled_names (g ∷ given) [] e some_given blank = ground arith
filled_names (g ∷ given) (k ∷ kept) e some_given blank = ground arith

-- Of the host HTTPRoute made of a guest's: every hostname is authorized, and there is one if the
-- guest gave any; every parent is one that the guest gave, of the kind Gateway, under the host name
-- of the Gateway that it names, in the guest's or in its own namespace; no filter is an
-- ExtensionRef; every backend, and the backend of every RequestMirror, is one that the guest gave,
-- of the kind Service and not of another namespace than the route's, under the host name of that
-- Service, which the host reaches and for which a host Service is asked. The groups of these
-- references, and what filters refer to for external authorization, are the guest's own. The name,
-- namespace and labels are the controller's.
pub map_http_route-safe :
    (lib : Library) (tc : TenantCluster) (guest : HttpRoute) (resolve : Text → Option Unresolved)
    (h : HostRoute)
    → (map_http_route lib tc guest resolve).host ≡ some h
    → HostRouteIsSafe lib tc guest resolve (map_http_route lib tc guest resolve) h
unfolding map_http_route host_route
map_http_route-safe lib tc guest resolve h e =
    let ns = guest.meta.namespace in
    let names = map_hostnames lib tc ns resolve guest.hostnames in
    let parents = map_parents lib tc ns resolve guest.parent_refs in
    let rules = map_rules lib tc ns resolve 0 guest.rules in
    elim (Bool-cases (not (is_empty guest.hostnames) && is_empty names.kept)) [
      | inl unnamed ↦ absurd (ground arith)
      | inr named ↦ elim (Bool-cases (is_empty parents.kept)) [
        | inl orphan ↦ absurd (ground arith)
        | inr attached ↦ elim (Bool-cases (is_empty rules.kept)) [
          | inl idle ↦ absurd (ground arith)
          | inr active ↦
              let made : host_route lib tc guest parents.kept names.kept rules.kept ≡ h =
                ground arith in
              rw (named, attached, active, ← made)
                (record {
                  hostnames = map_hostnames-safe lib tc ns resolve (GivenBy guest) guest.hostnames;
                  explicit = filled_names guest.hostnames names.kept named;
                  parents =
                      map_parents-safe lib tc ns resolve (GivenBy guest) guest.parent_refs
                        guest.parent_refs (All-self guest.parent_refs);
                  some_parent = λ blank. ground arith;
                  rules =
                      All-imp
                        (RuleIsSafe-imp lib tc ns resolve (GivenBy guest)
                          (λ n. Member n rules.backends)
                          (λ n. Member n (sorted_names rules.backends))
                          (λ n. (Member-sorted_names n rules.backends).1))
                        rules.kept
                        (map_rules-safe lib tc ns resolve (GivenBy guest) 0 guest.rules (
                          rules-Give lib tc ns resolve (GivenBy guest) guest.rules
                            (λ role o m. m))).0;
                  name = refl;
                  namespace = refl;
                  labels = refl;
                })
        ]
      ]
    ]
