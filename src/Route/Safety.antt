-- ===== src/Route/Safety.antt =====
-- The hostnames, parents, backends and rules of a host HTTPRoute: what is authorized, and what refers
-- to host objects of guest Services that the host reaches.
use vcluster_private_cloud_c.Gathered.{Gathered}
use vcluster_private_cloud_c.Go.{Library}
use vcluster_private_cloud_c.Hostname
use vcluster_private_cloud_c.Hostname.Grants.{Authorized, allowed_iff}
use vcluster_private_cloud_c.Ownership.{host_object_name}
use vcluster_private_cloud_c.Prelude.{
  ℕ, suc, ◌≡◌, inl, inr, refl, false, ◌||◌, not, Option, none, List, [], ◌∷◌, ◌++◌, Text, codes,
  is_empty, All, All-imp, All-append, Any, Any-append_left, Any-append_right, Member, Bool-cases,
  Option-cases,
}
use vcluster_private_cloud_c.Route.{
  ParentRef, BackendObject, Filter, BackendRef, RouteRule, rule_backend, rule, Refusal, other_than,
}
use vcluster_private_cloud_c.Route.Filters.{host_object, map_filters}
use vcluster_private_cloud_c.Route.Rules.{
  or_own, map_hostnames, map_parents, keep_backend, map_backend, map_backends, with_rule, map_rules,
  refused,
}
use vcluster_private_cloud_c.Service.Mapping.{Unresolved}
use vcluster_private_cloud_c.Tenant.{TenantCluster}
use vcluster_private_cloud_c.Route.References.{
  NoneOr, other_than-NoneOr, Role, backend, BackendGives, RuleGives, RuleIsSafe, FilterIsSafe-imp,
  BackendIsSafe-imp, RuleIsSafe-imp, Resolves, FiltersAreSafe, BackendsAreSafe, RulesAreSafe,
  map_filters-safe,
}

module _ (lib : Library) (tc : TenantCluster) (ns : Text) (resolve : Text → Option Unresolved)
    (Given : Role → BackendObject → Type 0) where
  keep_backend-safe :
      (b : BackendRef) (filters : Gathered Refusal Filter) (rest : Gathered Refusal BackendRef)
      → Given backend b.object
      → other_than (codes "Service") b.object.kind ≡ false
      → other_than ns b.object.namespace ≡ false
      → resolve b.object.name ≡ none
      → FiltersAreSafe lib tc ns resolve Given filters
      → BackendsAreSafe lib tc ns resolve Given rest
      → BackendsAreSafe lib tc ns resolve Given (keep_backend lib tc ns resolve b filters rest)
  unfolding keep_backend host_object
  keep_backend-safe b filters rest given kind here e (k, r) (k', r') = (
    (
      (
        (
          b.object,
          given,
          other_than-NoneOr (codes "Service") b.object.kind kind,
          other_than-NoneOr ns b.object.namespace here,
          refl,
          e,
          inl refl,
        ),
        All-imp
            (FilterIsSafe-imp lib tc ns resolve Given (λ n. Member n filters.backends) asked
              (λ n m. inr (Any-append_left (λ x. x ≡ n) filters.backends rest.backends m)))
            filters.kept k,
      ),
      All-imp
          (BackendIsSafe-imp lib tc ns resolve Given (λ n. Member n rest.backends) asked
            (λ n m. inr (Any-append_right (λ x. x ≡ n) filters.backends rest.backends m)))
          rest.kept k',
    ),
    (e, All-append (Resolves lib tc ns resolve Given) filters.backends rest.backends r r'),
  )
    where
      asked : Text → Type 0
      asked n = Member n (b.object.name ∷ (filters.backends ++ rest.backends))

  map_backends-safe :
      (i : ℕ) (bs : List BackendRef)
      → All (BackendGives lib tc ns resolve Given) bs
      → BackendsAreSafe lib tc ns resolve Given (map_backends lib tc ns resolve i bs)
  unfolding map_backends map_backend
  map_backends-safe i [] g = (tt, tt)
  map_backends-safe i (b ∷ bs) ((given, g), gs) =
      elim (Bool-cases (other_than (codes "Service") b.object.kind)) [
        | inl bad ↦ rw bad (map_backends-safe i bs gs)
        | inr kind ↦ elim (Bool-cases (other_than ns b.object.namespace)) [
          | inl bad ↦ rw (kind, bad) (map_backends-safe i bs gs)
          | inr here ↦ elim (Option-cases (resolve b.object.name)) [
            | inr (msg, e) ↦ rw (kind, here, e, map_backend) (map_backends-safe i bs gs)
            | inl e ↦
                rw (kind, here, e, map_backend)
                  (keep_backend-safe b
                    (map_filters lib tc ns (rule_backend i b.object.name) resolve b.filters)
                    (map_backends lib tc ns resolve i bs) given kind here e
                    (map_filters-safe lib tc ns resolve Given (rule_backend i b.object.name)
                      b.filters g)
                    (map_backends-safe i bs gs))
          ]
        ]
      ]

  with_rule-safe :
      (x : RouteRule) (fs : Gathered Refusal Filter) (bs : Gathered Refusal BackendRef)
      (rest : Gathered Refusal RouteRule)
      → FiltersAreSafe lib tc ns resolve Given fs
      → BackendsAreSafe lib tc ns resolve Given bs
      → RulesAreSafe lib tc ns resolve Given rest
      → RulesAreSafe lib tc ns resolve Given (with_rule lib tc ns resolve x fs bs rest)
  unfolding with_rule
  with_rule-safe x fs bs rest (k, r) (k', r') (k'', r'') = (
    elim (Bool-cases (not (is_empty bs.kept) || is_empty x.backend_refs)) [
      | inr dropped ↦ rw dropped later
      | inl kept ↦ rw kept (here, later)
    ],
    All-append (Resolves lib tc ns resolve Given) fs.backends (bs.backends ++ rest.backends) r
        (All-append (Resolves lib tc ns resolve Given) bs.backends rest.backends r' r''),
  )
    where
      asked : Text → Type 0
      asked n = Member n (fs.backends ++ (bs.backends ++ rest.backends))

      here :
          RuleIsSafe lib tc ns resolve Given asked
            (record x { filters = fs.kept; backend_refs = bs.kept })
      here = (
        All-imp
            (FilterIsSafe-imp lib tc ns resolve Given (λ n. Member n fs.backends) asked
              (λ n. Any-append_left (λ y. y ≡ n) fs.backends (bs.backends ++ rest.backends)))
            fs.kept k,
        All-imp
            (BackendIsSafe-imp lib tc ns resolve Given (λ n. Member n bs.backends) asked
              (λ n m.
                Any-append_right (λ y. y ≡ n) fs.backends (bs.backends ++ rest.backends)
                  (Any-append_left (λ y. y ≡ n) bs.backends rest.backends m)))
            bs.kept k',
      )

      later : All (RuleIsSafe lib tc ns resolve Given asked) rest.kept
      later =
          All-imp
            (RuleIsSafe-imp lib tc ns resolve Given (λ n. Member n rest.backends) asked
              (λ n m.
                Any-append_right (λ y. y ≡ n) fs.backends (bs.backends ++ rest.backends)
                  (Any-append_right (λ y. y ≡ n) bs.backends rest.backends m)))
            rest.kept k''

  pub map_rules-safe :
      (i : ℕ) (rules : List RouteRule)
      → All (RuleGives lib tc ns resolve Given) rules
      → RulesAreSafe lib tc ns resolve Given (map_rules lib tc ns resolve i rules)
  unfolding map_rules
  map_rules-safe i [] g = (tt, tt)
  map_rules-safe i (x ∷ rules) ((g, h), gs) =
      with_rule-safe x (map_filters lib tc ns (rule i) resolve x.filters)
        (map_backends lib tc ns resolve i x.backend_refs)
        (map_rules lib tc ns resolve (suc i) rules)
        (map_filters-safe lib tc ns resolve Given (rule i) x.filters g)
        (map_backends-safe i x.backend_refs h) (map_rules-safe (suc i) rules gs)

  -- A parent that the guest gave, of the kind Gateway, under the name that the host Gateway of
  -- the guest's Gateway has; all else of it, its group included, is the guest's.
  abbrev pub ParentIsSafe : List ParentRef → ParentRef → Type 0
  ParentIsSafe asked p =
      (q : ParentRef) × Any (λ x. x ≡ q) asked
      × NoneOr (codes "Gateway") q.kind
      × (p ≡ record {
        group = q.group;
        kind = q.kind;
        namespace = none;
        name = host_object_name lib tc.name (or_own ns q.namespace) q.name;
        section_name = q.section_name;
        port = q.port;
      })

  pub map_parents-safe :
      (asked parents : List ParentRef)
      → All (λ q. Any (λ x. x ≡ q) asked) parents
      → All (ParentIsSafe asked) (map_parents lib tc ns resolve parents).kept
  unfolding map_parents
  map_parents-safe asked [] m = tt
  map_parents-safe asked (p ∷ parents) (here, m) =
      elim (Bool-cases (other_than (codes "Gateway") p.kind)) [
        | inl bad ↦ rw bad (map_parents-safe asked parents m)
        | inr kind ↦ rw kind (
          (p, here, other_than-NoneOr (codes "Gateway") p.kind kind, refl),
          map_parents-safe asked parents m,
        )
      ]

  abbrev pub NameIsSafe : Text → Type 0
  NameIsSafe h = Authorized lib.unicode h tc.spec.allowed_domains

  pub map_hostnames-safe :
      (hostnames : List Text) → All NameIsSafe (map_hostnames lib tc ns resolve hostnames).kept
  unfolding map_hostnames
  map_hostnames-safe [] = tt
  map_hostnames-safe (h ∷ hostnames) =
      elim (Bool-cases (Hostname.allowed lib.unicode h tc.spec.allowed_domains)) [
        | inr refused ↦ rw refused (map_hostnames-safe hostnames)
        | inl fine ↦ rw fine (
          (allowed_iff lib.unicode h tc.spec.allowed_domains).0 fine,
          map_hostnames-safe hostnames,
        )
      ]
