-- ===== src/Reconciler/LetGo.antt =====
-- When a deleted TenantCluster is let go.
use vcluster_private_cloud_c.Go.{Library}
use vcluster_private_cloud_c.KubeVirt.{Vms}
use vcluster_private_cloud_c.Ownership.{owned_by}
use vcluster_private_cloud_c.Pass.Listing.{Listing, items, no_match, list_failed, ApiError}
use vcluster_private_cloud_c.Pass.Prune.{HostObject, Host, Deleter}
use vcluster_private_cloud_c.Prelude.{
  ◌≡◌, inl, refl, sym, subst, ap, ◌∙◌, Bool, true, false, not, ◌||◌, Option, none, some, List, [],
  ◌∷◌, ◌++◌, All, All-imp, Any, Any-append_left, Any-append_right, if_cases, arith,
}
use vcluster_private_cloud_c.Reconciler.{
  Deleting, after_delete, delete_object, delete_objects, Ending, aborted, again, let_go,
  delete_kind, delete_optional, settle, after_storage, reconcile_delete,
}
use vcluster_private_cloud_c.Tenant.{TenantCluster}
use vcluster_private_cloud_c.Volumes.{World}
use vcluster_private_cloud_c.Volumes.Calls.{append_nil, append_assoc}
use vcluster_private_cloud_c.Volumes.Deletion.{Result, stopped, ended, storage_teardown}
use vcluster_private_cloud_c.Volumes.Deletion.Finished.{IsDone}

abbrev pub IsLetGo : Ending → Type 0
IsLetGo (aborted d) = ⊥
IsLetGo (again d) = ⊥
IsLetGo (let_go d) = Unit

abbrev pub deleted_of : Ending → List HostObject
deleted_of (aborted d) = d
deleted_of (again d) = d
deleted_of (let_go d) = d

abbrev pub listed : {A : Type 0} → Listing A → List A
listed (items xs) = xs
listed (no_match e) = []
listed (list_failed e) = []

both_off : (a b : Bool) → (a || not b) ≡ false → (a ≡ false) × (b ≡ true)
both_off false true e = (refl, refl)
both_off false false e = absurd (ground (arith, e))
both_off true b e = absurd (ground (arith, e))

module _ (tc : TenantCluster) (answer : Deleter) where
  -- The object is not the tenant's, or its deletion was asked for and not refused.
  unfoldable pub Cleared : List HostObject → HostObject → Type 0
  Cleared d obj = owned_by obj.labels tc ≡ true → Any (λ o. o ≡ obj) d × (answer obj ≡ none)

  record Deletes (objs : List HostObject) (s t : Deleting) : Type 0 where
    added : List HostObject
    log : t.deleted ≡ s.deleted ++ added
    cleared : t.failed ≡ false → (s.failed ≡ false) × All (Cleared t.deleted) objs

  Cleared-grow : (a b : List HostObject) (obj : HostObject) → Cleared a obj → Cleared (a ++ b) obj
  unfolding Cleared
  Cleared-grow a b obj h owned = let (m, e) = h owned in (Any-append_left (λ o. o ≡ obj) a b m, e)

  All-grow :
      (objs : List HostObject) (a b c : List HostObject)
      → b ≡ a ++ c
      → All (Cleared a) objs
      → All (Cleared b) objs
  All-grow objs a b c e h =
      All-imp (λ o k. subst (λ l. Cleared l o) (sym e) (Cleared-grow a c o k)) objs h

  no_error : (o : Option ApiError) (b : Bool) → after_delete o b ≡ false → (b ≡ false) × (o ≡ none)
  unfolding after_delete
  no_error none b e = (e, refl)
  no_error (some x) b e = absurd (ground (arith, e))

  delete_object-Deletes :
      (obj : HostObject) (s : Deleting) → Deletes (obj ∷ []) s (delete_object tc answer obj s)
  unfolding delete_object Cleared
  delete_object-Deletes obj s =
      if_cases (Deletes (obj ∷ []) s) (owned_by obj.labels tc) _ s
        (λ owned. record {
          added = obj ∷ [];
          log = refl;
          cleared = λ f.
              let (before, e) = no_error (answer obj) s.failed f in
              (
                before,
                (λ o. (Any-append_right (λ x. x ≡ obj) s.deleted (obj ∷ []) (inl refl), e), tt),
              );
        })
        (λ foreign. record {
          added = [];
          log = sym (append_nil s.deleted);
          cleared = λ f. (f, (λ o. absurd (ground (arith, o, foreign)), tt));
        })

  delete_objects-Deletes :
      (objs : List HostObject) (s : Deleting) → Deletes objs s (delete_objects tc answer objs s)
  unfolding delete_objects
  delete_objects-Deletes [] s = record {
    added = [];
    log = sym (append_nil s.deleted);
    cleared = λ f. (f, tt);
  }
  delete_objects-Deletes (obj ∷ objs) s =
      let t = delete_object tc answer obj s in
      let one = delete_object-Deletes obj s in
      let rest = delete_objects-Deletes objs t in
      record {
        added = one.added ++ rest.added;
        log =
            rest.log
            ∙ (ap (λ l. l ++ rest.added) one.log ∙ append_assoc s.deleted one.added rest.added);
        cleared = λ f.
            let (now, others) = rest.cleared f in
            let (before, c) = one.cleared now in
            (before, ((All-grow (obj ∷ []) t.deleted _ rest.added rest.log c).0, others));
      }

  -- What is known when the rest of the reconciliation, begun with `s`, lets the TenantCluster go.
  Lets : (Deleting → Ending) → (List HostObject → Type 0) → Type 0
  Lets next P =
      (s : Deleting)
      → IsLetGo (next s)
      → (s.failed ≡ false)
        × (((added : List HostObject) × (deleted_of (next s) ≡ s.deleted ++ added))
            × P (deleted_of (next s)))

  -- One more listing before the rest.
  prepend :
      (next : Deleting → Ending) (P : List HostObject → Type 0) (objs : List HostObject)
      → Lets next P
      → Lets (λ s. next (delete_objects tc answer objs s)) (λ d. All (Cleared d) objs × P d)
  unfolding Lets
  prepend next P objs rest s go =
      let t = delete_objects tc answer objs s in
      let step = delete_objects-Deletes objs s in
      let (clean, ((added, log), p)) = rest t go in
      let (before, cleared) = step.cleared clean in
      (
        before,
        (
          (
            step.added ++ added,
            log ∙ (ap (λ l. l ++ added) step.log ∙ append_assoc s.deleted step.added added),
          ),
          (All-grow objs t.deleted _ added log cleared, p),
        ),
      )

  kind-Lets :
      (l : Listing HostObject) (next : Deleting → Ending) (P : List HostObject → Type 0)
      → Lets next P
      → Lets (delete_kind tc answer l next) (λ d. All (Cleared d) (listed l) × P d)
  unfolding delete_kind Lets
  kind-Lets (items objs) next P rest s go = prepend next P objs rest s go
  kind-Lets (no_match e) next P rest s go = absurd go
  kind-Lets (list_failed e) next P rest s go = absurd go

  optional-Lets :
      (l : Listing HostObject) (next : Deleting → Ending) (P : List HostObject → Type 0)
      → Lets next P
      → Lets (delete_optional tc answer l next) (λ d. All (Cleared d) (listed l) × P d)
  unfolding delete_optional Lets
  optional-Lets (items objs) next P rest s go = prepend next P objs rest s go
  optional-Lets (no_match e) next P rest s go =
      let (clean, (log, p)) = rest s go in (clean, (log, (tt, p)))
  optional-Lets (list_failed e) next P rest s go = absurd go

  settle-Lets : (storage_done : Bool) → Lets (settle storage_done) (λ d. storage_done ≡ true)
  unfolding settle Lets
  settle-Lets storage_done s =
      if_cases
        (λ e.
          IsLetGo e
          → (s.failed ≡ false)
            × (((added : List HostObject) × (deleted_of e ≡ s.deleted ++ added))
                × (storage_done ≡ true)))
        (s.failed || not storage_done) (again s.deleted) (let_go s.deleted) (λ q go. absurd go)
        (λ q go.
          let (clean, done) = both_off s.failed storage_done q in
          (clean, (([], sym (append_nil s.deleted)), done)))

  -- The four kinds, of which the last two only if the host has the Gateway API.
  pub AllCleared : Bool → Host → List HostObject → Type 0
  AllCleared gateway_api host d =
      All (Cleared d) (listed host.services)
      × (All (Cleared d) (listed host.ingresses)
          × (gateway_api ≡ true
              → All (Cleared d) (listed host.gateways) × All (Cleared d) (listed host.routes)))

  after_storage-AllCleared :
      (gateway_api : Bool) (host : Host) (r : Result)
      → IsLetGo (after_storage tc answer gateway_api host r)
      → IsDone r
        × AllCleared gateway_api host (deleted_of (after_storage tc answer gateway_api host r))
  unfolding after_storage AllCleared Lets
  after_storage-AllCleared gateway_api host stopped go = absurd go
  after_storage-AllCleared true host (ended t) go =
      let P0 : List HostObject → Type 0 = λ d. t.done ≡ true in
      let P1 : List HostObject → Type 0 = λ d. All (Cleared d) (listed host.routes) × P0 d in
      let P2 : List HostObject → Type 0 = λ d. All (Cleared d) (listed host.gateways) × P1 d in
      let P3 : List HostObject → Type 0 = λ d. All (Cleared d) (listed host.ingresses) × P2 d in
      let gateways =
        optional-Lets host.gateways _ P1
          (optional-Lets host.routes (settle t.done) P0 (settle-Lets t.done)) in
      let services = kind-Lets host.services _ P3 (kind-Lets host.ingresses _ P2 gateways) in
      let (clean, (log, (s, (i, (g, (r, done)))))) =
        services (record { failed = false; deleted = [] }) go in
      (done, (s, (i, λ e. (g, r))))
  after_storage-AllCleared false host (ended t) go =
      let P0 : List HostObject → Type 0 = λ d. t.done ≡ true in
      let P3 : List HostObject → Type 0 = λ d. All (Cleared d) (listed host.ingresses) × P0 d in
      let services =
        kind-Lets host.services _ P3
          (kind-Lets host.ingresses (settle t.done) P0 (settle-Lets t.done)) in
      let (clean, (log, (s, (i, done)))) = services (record { failed = false; deleted = [] }) go in
      (done, (s, (i, λ e. absurd (ground (arith, e)))))

  -- A deleted TenantCluster is let go only if the teardown of its storage says that all is done,
  -- and if the deletion of every listed Service and Ingress of the tenant, and with the Gateway
  -- API on the host of every listed Gateway and HTTPRoute of the tenant, was asked for and not
  -- refused.
  pub reconcile_delete-AllCleared :
      (lib : Library) (w : World) (hot : Bool) (claims : Listing HostObject) (machines : Option Vms)
      (gateway_api : Bool) (host : Host)
      → IsLetGo (reconcile_delete lib tc w hot claims machines answer gateway_api host)
      → IsDone (storage_teardown lib tc w hot claims machines)
        × AllCleared gateway_api host
            (deleted_of (reconcile_delete lib tc w hot claims machines answer gateway_api host))
  unfolding reconcile_delete
  reconcile_delete-AllCleared lib w hot claims machines gateway_api host go =
      after_storage-AllCleared gateway_api host (storage_teardown lib tc w hot claims machines) go
