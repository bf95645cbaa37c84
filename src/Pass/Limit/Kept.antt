-- ===== src/Pass/Limit/Kept.antt =====
-- What the limit leaves alone, and how far it lets the number of endpoints go.
use vcluster_private_cloud_c.Go.{Library}
use vcluster_private_cloud_c.Pass.Refs.{
  Counts, Kind, service, gateway, ingress, route, volume_claim, Pass, Refusal, refuse,
}
use vcluster_private_cloud_c.Pass.Limit.{
  count_load_balancers, Claim, sort_claims, claims_of, admit, marked, HostReader,
  host_object_exists, withdraw_claim, withdraw_kind, withdraw_service, withdraw_all,
  apply_address_limit, backend_for,
}
use vcluster_private_cloud_c.Pass.Limit.Order.{sort_claims-member}
use vcluster_private_cloud_c.Pass.Limit.Admission.{
  admit-refused, admit-refused, number_existing, admit-bounded,
}
use vcluster_private_cloud_c.Tenant.{TenantCluster, load_balancer_limit}
use vcluster_private_cloud_c.Service.{HostService}
use vcluster_private_cloud_c.Prelude.{
  if_cases, sym, subst, length, All-imp, ◌+◌, ◌∙◌, ℕ, ◌≡◌, ◌≤◌, refl, Bool, true, false, List, [],
  ◌∷◌, Text, ◌==◌, ==_iff, Option, none, some, find, find-put, find-remove, All, arith,
}

SameEndpoints : Text → Pass → Pass → Type 0
SameEndpoints name p q =
    (find ◌==◌ name q.services ≡ find ◌==◌ name p.services)
    × (find ◌==◌ name q.gateways ≡ find ◌==◌ name p.gateways)

module _ (lib : Library) (tc : TenantCluster) (host_families : List Text) where
  withdraw_service-other :
      (p : Pass) (c : Claim) (name : Text) (backend : Option HostService)
      → (c.host_name == name) ≡ false
      → SameEndpoints name p (withdraw_service p c backend)
  unfolding withdraw_service SameEndpoints
  withdraw_service-other p c name (some b) h =
      (ground (arith, find-put ◌==◌ ==_iff c.host_name name b p.services), refl)
  withdraw_service-other p c name none h =
      (ground (arith, find-remove ◌==◌ ==_iff c.host_name name p.services), refl)

  withdraw_kind-other :
      (p : Pass) (c : Claim) (name : Text) (kind : Kind)
      → (c.host_name == name) ≡ false
      → SameEndpoints name p (withdraw_kind lib tc host_families kind p c)
  unfolding withdraw_kind SameEndpoints
  withdraw_kind-other p c name service h =
      withdraw_service-other p c name (backend_for lib tc host_families p c) h
  withdraw_kind-other p c name gateway h =
      (refl, ground (arith, find-remove ◌==◌ ==_iff c.host_name name p.gateways))
  withdraw_kind-other p c name ingress h = (refl, refl)
  withdraw_kind-other p c name route h = (refl, refl)
  withdraw_kind-other p c name volume_claim h = (refl, refl)

  withdraw_all-other :
      (limit admitted : ℕ) (claims : List Claim) (name : Text) (p : Pass)
      → All (λ c. (c.host_name == name) ≡ false) claims
      → SameEndpoints name p (withdraw_all lib tc host_families limit admitted claims p)
  unfolding withdraw_all withdraw_claim SameEndpoints refuse
  withdraw_all-other limit admitted [] name p h = (refl, refl)
  withdraw_all-other limit admitted (c ∷ claims) name p (h, hs) =
      let q = refuse c.ref (Refusal.address_limit limit admitted) p in
      let once = withdraw_kind-other q c name c.ref.kind h in
      let rest =
        withdraw_all-other limit admitted claims name
          (withdraw_kind lib tc host_families c.ref.kind q c) hs in
      (rest.0 ∙ once.0, rest.1 ∙ once.1)

  withdraw_service-counts :
      (p : Pass) (c : Claim) (backend : Option HostService)
      → (withdraw_service p c backend).counts ≡ p.counts
  unfolding withdraw_service
  withdraw_service-counts p c (some b) = refl
  withdraw_service-counts p c none = refl

  withdraw_kind-counts :
      (p : Pass) (c : Claim) (kind : Kind)
      → (withdraw_kind lib tc host_families kind p c).counts ≡ p.counts
  unfolding withdraw_kind
  withdraw_kind-counts p c service =
      withdraw_service-counts p c (backend_for lib tc host_families p c)
  withdraw_kind-counts p c gateway = refl
  withdraw_kind-counts p c ingress = refl
  withdraw_kind-counts p c route = refl
  withdraw_kind-counts p c volume_claim = refl

  withdraw_all-counts :
      (limit admitted : ℕ) (claims : List Claim) (p : Pass)
      → (withdraw_all lib tc host_families limit admitted claims p).counts ≡ p.counts
  unfolding withdraw_all withdraw_claim refuse
  withdraw_all-counts limit admitted [] p = refl
  withdraw_all-counts limit admitted (c ∷ claims) p =
      let q = refuse c.ref (Refusal.address_limit limit admitted) p in
      withdraw_all-counts limit admitted claims (withdraw_kind lib tc host_families c.ref.kind q c)
      ∙ withdraw_kind-counts q c c.ref.kind

  module _ (host : HostReader) (gateway_api : Bool) where
    marked_refused :
        (P : Claim → Type 0) (claims : List Claim)
        → All (λ c. host_object_exists tc host gateway_api c ≡ false → P c) claims
        → All (λ x. x.1 ≡ false → P x.0) (marked tc host gateway_api claims)
    marked_refused P [] h = tt
    marked_refused P (c ∷ claims) (p, h) = (p, marked_refused P claims h)

    -- An endpoint that the host holds already is not withdrawn, whatever the limit is: if every
    -- claim with a host name exists on the host, the desired Service and Gateway of that name
    -- are those of before.
    pub apply_address_limit-keeps :
        (p : Pass) (name : Text)
        → All
            (λ c. (c.host_name == name) ≡ true → host_object_exists tc host gateway_api c ≡ true)
            (claims_of p)
        → (find ◌==◌ name (apply_address_limit lib tc host gateway_api host_families p).services
            ≡ find ◌==◌ name p.services)
          × (find ◌==◌ name (apply_address_limit lib tc host gateway_api host_families p).gateways
              ≡ find ◌==◌ name p.gateways)
    unfolding apply_address_limit SameEndpoints
    apply_address_limit-keeps p name h =
        if_cases (SameEndpoints name p) (load_balancer_limit tc).1
          (withdraw_all lib tc host_families limit outcome.0 outcome.1
            (count_load_balancers outcome.0 p))
          (count_load_balancers (length claims) p)
          (λ e.
            withdraw_all-other limit outcome.0 outcome.1 name (count_load_balancers outcome.0 p)
              untouched)
          (λ e. (refl, refl))
      where
        limit : ℕ
        limit = (load_balancer_limit tc).0

        claims : List Claim
        claims = sort_claims (claims_of p)

        outcome : ℕ × List Claim
        outcome = admit limit 0 (marked tc host gateway_api claims)

        Elsewhere : Claim → Type 0
        Elsewhere c = (c.host_name == name) ≡ false

        kept :
            (c : Claim)
            → ((c.host_name == name) ≡ true → host_object_exists tc host gateway_api c ≡ true)
            → host_object_exists tc host gateway_api c ≡ false
            → Elsewhere c
        kept c f e = ground (arith, f)

        untouched : All Elsewhere outcome.1
        untouched = admit-refused Elsewhere limit 0 (marked tc host gateway_api claims) (
            marked_refused Elsewhere claims (
              sort_claims-member
                (λ c. host_object_exists tc host gateway_api c ≡ false → Elsewhere c) (claims_of p)
                (All-imp kept (claims_of p) h)))

    -- With a limit in force, the endpoints counted are at most the limit and those that the host
    -- holds already.
    pub apply_address_limit-bounded :
        (p : Pass)
        → (load_balancer_limit tc).1 ≡ true
        → (apply_address_limit lib tc host gateway_api host_families p).counts.load_balancers
          ≤ (load_balancer_limit tc).0
            + number_existing (marked tc host gateway_api (sort_claims (claims_of p)))
    unfolding apply_address_limit
    apply_address_limit-bounded p capped =
        if_cases (λ q. q.counts.load_balancers ≤ limit + number_existing claims)
          (load_balancer_limit tc).1
          (withdraw_all lib tc host_families limit outcome.0 outcome.1
            (count_load_balancers outcome.0 p))
          (count_load_balancers (length (sort_claims (claims_of p))) p)
          (λ e.
            subst (λ (n : Counts). n.load_balancers ≤ limit + number_existing claims)
              (sym
                (withdraw_all-counts limit outcome.0 outcome.1 (count_load_balancers outcome.0 p)))
              (bounded _ _ _ (admit-bounded limit 0 claims 0 (omega arith))))
          (λ e. absurd (ground arith))
      where
        limit : ℕ
        limit = (load_balancer_limit tc).0

        claims : List (Claim × Bool)
        claims = marked tc host gateway_api (sort_claims (claims_of p))

        outcome : ℕ × List Claim
        outcome = admit limit 0 claims

        bounded : (a l n : ℕ) → a ≤ (l + 0) + n → a ≤ l + n
        bounded a l n h = omega (arith, h)
