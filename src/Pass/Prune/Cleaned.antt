-- ===== src/Pass/Prune/Cleaned.antt =====
-- What a pruning that reports no failure has deleted.
use vcluster_private_cloud_c.Ownership.{owned_by}
use vcluster_private_cloud_c.Pass.Listing.{Listing, items, no_match, list_failed}
use vcluster_private_cloud_c.Pass.Prune.{
  ApiError, HostObject, Pruning, Deleter, delete_owned, after_delete, prune_items, prune_kind,
  prune_optional, Host, prune_all, given,
}
use vcluster_private_cloud_c.Pass.Refs.{Pass}
use vcluster_private_cloud_c.Prelude.{
  if_cases, All-imp, Any-append_right, Any-append_left, subst, ◌≡◌, inl, inr, refl, Bool, true,
  false, Option, none, some, List, [], ◌∷◌, ◌++◌, Text, ◌==◌, find, All, Any, arith, Bool-cases,
  if◌then◌else◌,
}
use vcluster_private_cloud_c.Tenant.{TenantCluster}

-- What a listing that did not fail has listed.
abbrev pub listed : Listing HostObject → List HostObject
listed (items objs) = objs
listed (no_match e) = []
listed (list_failed e) = []

module _ (tc : TenantCluster) (answer : Deleter) where
  -- A listed object that is ours and no longer desired has been deleted.
  pub Cleaned : (Text → Bool) → Pruning → HostObject → Type 0
  Cleaned desired s o =
      owned_by o.labels tc ≡ true
      → desired o.name ≡ false
      → Any (λ d. d ≡ o) s.deleted × (answer o ≡ none)

  -- The later pruning keeps what the earlier has deleted, and forgets no failure.
  record Extends (s t : Pruning) : Type 0 where
    pub deleted : (o : HostObject) → Any (λ d. d ≡ o) s.deleted → Any (λ d. d ≡ o) t.deleted
    pub failure : t.state.prune_failed ≡ false → s.state.prune_failed ≡ false

  Extends-refl : (s : Pruning) → Extends s s
  Extends-refl s = record { deleted = λ o m. m; failure = λ e. e }

  Extends-trans : (s t u : Pruning) → Extends s t → Extends t u → Extends s u
  Extends-trans s t u a b = record {
    deleted = λ o m. b.deleted o (a.deleted o m);
    failure = λ e. a.failure (b.failure e);
  }

  after_delete-failure :
      (obj : HostObject) (outcome : Option ApiError) (p : Pass)
      → (after_delete obj outcome p).prune_failed ≡ false
      → (outcome ≡ none) × (p.prune_failed ≡ false)
  unfolding after_delete
  after_delete-failure obj none p e = (refl, e)
  after_delete-failure obj (some e') p e = absurd (ground arith)

  delete_owned-Extends : (obj : HostObject) (s : Pruning) → Extends s (delete_owned tc answer obj s)
  unfolding delete_owned
  delete_owned-Extends obj s = elim (Bool-cases (owned_by obj.labels tc)) [
    | inl e ↦ rw e (record {
      deleted = λ o m. Any-append_left (λ d. d ≡ o) s.deleted (obj ∷ []) m;
      failure = λ f. (after_delete-failure obj (answer obj) s.state f).1;
    })
    | inr e ↦ rw e (Extends-refl s)
  ]

  delete_owned-deletes :
      (obj : HostObject) (s : Pruning)
      → (delete_owned tc answer obj s).state.prune_failed ≡ false
      → owned_by obj.labels tc ≡ true
      → Any (λ d. d ≡ obj) (delete_owned tc answer obj s).deleted × (answer obj ≡ none)
  unfolding delete_owned
  delete_owned-deletes obj s f e =
      let f' =
        subst
          (λ (b : Bool).
            (if b
              then record {
                state = after_delete obj (answer obj) s.state;
                deleted = s.deleted ++ obj ∷ [];
              }
              else s).state.prune_failed
            ≡ false)
          e f in
      rw e (
        Any-append_right (λ d. d ≡ obj) s.deleted (obj ∷ []) (inl refl),
        (after_delete-failure obj (answer obj) s.state f').0,
      )

  prune_items-Extends :
      (desired : Text → Bool) (objs : List HostObject) (s : Pruning)
      → Extends s (prune_items tc answer desired objs s)
  unfolding prune_items
  prune_items-Extends desired [] s = Extends-refl s
  prune_items-Extends desired (obj ∷ objs) s =
      let next = if desired obj.name then s else delete_owned tc answer obj s in
      Extends-trans s next (prune_items tc answer desired objs next)
        (if_cases (Extends s) (desired obj.name) s (delete_owned tc answer obj s)
          (λ e. Extends-refl s) (λ e. delete_owned-Extends obj s))
        (prune_items-Extends desired objs next)

  Cleaned-later :
      (desired : Text → Bool) (s t : Pruning) (o : HostObject)
      → Extends s t
      → Cleaned desired s o
      → Cleaned desired t o
  unfolding Cleaned
  Cleaned-later desired s t o x c e d = let (m, a) = c e d in (x.deleted o m, a)

  All-later :
      (desired : Text → Bool) (s t : Pruning) (objs : List HostObject)
      → Extends s t
      → All (Cleaned desired s) objs
      → All (Cleaned desired t) objs
  All-later desired s t objs x h = All-imp (λ o c. Cleaned-later desired s t o x c) objs h

  first-Cleaned :
      (desired : Text → Bool) (b : Bool) (obj : HostObject) (s : Pruning)
      → desired obj.name ≡ b
      → (if b then s else delete_owned tc answer obj s).state.prune_failed ≡ false
      → Cleaned desired (if b then s else delete_owned tc answer obj s) obj
  unfolding Cleaned
  first-Cleaned desired true obj s q f e d = absurd (ground arith)
  first-Cleaned desired false obj s q f e d = delete_owned-deletes obj s f e

  prune_items-Cleaned :
      (desired : Text → Bool) (objs : List HostObject) (s : Pruning)
      → (prune_items tc answer desired objs s).state.prune_failed ≡ false
      → All (Cleaned desired (prune_items tc answer desired objs s)) objs
  unfolding prune_items
  prune_items-Cleaned desired [] s f = tt
  prune_items-Cleaned desired (obj ∷ objs) s f =
      let next = if desired obj.name then s else delete_owned tc answer obj s in
      let later = prune_items-Extends desired objs next in
      (
        Cleaned-later desired next (prune_items tc answer desired objs next) obj later
            (first-Cleaned desired (desired obj.name) obj s refl (later.failure f)),
        prune_items-Cleaned desired objs next f,
      )

  prune_kind-Cleaned :
      (desired : Text → Bool) (l : Listing HostObject) (s : Pruning)
      → (prune_kind tc answer desired l s).state.prune_failed ≡ false
      → All (Cleaned desired (prune_kind tc answer desired l s)) (listed l)
        × Extends s (prune_kind tc answer desired l s)
  unfolding prune_kind
  prune_kind-Cleaned desired (items objs) s f =
      (prune_items-Cleaned desired objs s f, prune_items-Extends desired objs s)
  prune_kind-Cleaned desired (no_match e) s f = absurd (ground arith)
  prune_kind-Cleaned desired (list_failed e) s f = absurd (ground arith)

  prune_optional-Cleaned :
      (desired : Text → Bool) (l : Listing HostObject) (s : Pruning)
      → (prune_optional tc answer desired l s).state.prune_failed ≡ false
      → All (Cleaned desired (prune_optional tc answer desired l s)) (listed l)
        × Extends s (prune_optional tc answer desired l s)
  unfolding prune_optional
  prune_optional-Cleaned desired (items objs) s f =
      (prune_items-Cleaned desired objs s f, prune_items-Extends desired objs s)
  prune_optional-Cleaned desired (no_match e) s f = (tt, Extends-refl s)
  prune_optional-Cleaned desired (list_failed e) s f = absurd (ground arith)

  abbrev wanted_service : Pass → Text → Bool
  wanted_service p n = given (find ◌==◌ n p.services)

  abbrev wanted_ingress : Pass → Text → Bool
  wanted_ingress p n = given (find ◌==◌ n p.ingresses)

  abbrev wanted_gateway : Pass → Text → Bool
  wanted_gateway p n = given (find ◌==◌ n p.gateways)

  abbrev wanted_route : Pass → Text → Bool
  wanted_route p n = given (find ◌==◌ n p.routes)

  -- If a pruning reports no failure, each Service and each Ingress that the host listed, that is
  -- ours and that the pass does not desire has been deleted without an error, and so has each such
  -- Gateway and HTTPRoute where the host has the Gateway API.
  pub prune_all-Cleaned :
      (gateway_api : Bool) (host : Host) (s : Pruning)
      → (prune_all tc answer gateway_api host s).state.prune_failed ≡ false
      → (All
            (Cleaned
              (λ n. given (find ◌==◌ n s.state.services))
              (prune_all tc answer gateway_api host s))
            (listed host.services)
          × All
              (Cleaned
                (λ n. given (find ◌==◌ n s.state.ingresses))
                (prune_all tc answer gateway_api host s))
              (listed host.ingresses))
        × (gateway_api ≡ true
            → All
                (Cleaned
                  (λ n. given (find ◌==◌ n s.state.gateways))
                  (prune_all tc answer gateway_api host s))
                (listed host.gateways)
              × All
                  (Cleaned
                    (λ n. given (find ◌==◌ n s.state.routes))
                    (prune_all tc answer gateway_api host s))
                  (listed host.routes))
  unfolding prune_all
  prune_all-Cleaned false host s f =
      let s1 = prune_kind tc answer (wanted_service s.state) host.services s in
      let s2 = prune_kind tc answer (wanted_ingress s.state) host.ingresses s1 in
      let (h2, x2) = prune_kind-Cleaned (wanted_ingress s.state) host.ingresses s1 f in
      let (h1, x1) = prune_kind-Cleaned (wanted_service s.state) host.services s (x2.failure f) in
      (
        (All-later (wanted_service s.state) s1 s2 (listed host.services) x2 h1, h2),
        λ e. absurd (ground arith),
      )
  prune_all-Cleaned true host s f =
      let s1 = prune_kind tc answer (wanted_service s.state) host.services s in
      let s2 = prune_kind tc answer (wanted_ingress s.state) host.ingresses s1 in
      let s3 = prune_optional tc answer (wanted_gateway s.state) host.gateways s2 in
      let s4 = prune_optional tc answer (wanted_route s.state) host.routes s3 in
      let (h4, x4) = prune_optional-Cleaned (wanted_route s.state) host.routes s3 f in
      let (h3, x3) =
        prune_optional-Cleaned (wanted_gateway s.state) host.gateways s2 (x4.failure f) in
      let (h2, x2) =
        prune_kind-Cleaned (wanted_ingress s.state) host.ingresses s1 (x3.failure (x4.failure f)) in
      let (h1, x1) =
        prune_kind-Cleaned (wanted_service s.state) host.services s
          (x2.failure (x3.failure (x4.failure f))) in
      let x34 = Extends-trans s2 s3 s4 x3 x4 in
      (
        (
          All-later (wanted_service s.state) s1 s4 (listed host.services)
              (Extends-trans s1 s2 s4 x2 x34) h1,
          All-later (wanted_ingress s.state) s2 s4 (listed host.ingresses) x34 h2,
        ),
        λ e. (All-later (wanted_gateway s.state) s3 s4 (listed host.gateways) x4 h3, h4),
      )
