-- ===== src/Pass/Apply/Guarded.antt =====
-- Which host objects are written to.
use vcluster_private_cloud_c.Meta.{Labels}
use vcluster_private_cloud_c.Ownership.{owned_by, merge_labels}
use vcluster_private_cloud_c.Pass.Apply.{
  Reply, have, absent, error, LiveService, Reader, Writer, Write, Applying, log, updated_service,
  as_host, keep_service, after_write, apply_service_reply, apply_replaced, apply_service,
  apply_ingress, apply_gateway, apply_route, apply_each, apply_all,
}
use vcluster_private_cloud_c.Pass.Refs.{Kind, service, ingress, gateway, route, Pass}
use vcluster_private_cloud_c.Pass.Listing.{ApiError}
use vcluster_private_cloud_c.Prelude.{
  ◌≡◌, refl, true, false, Option, none, some, List, [], ◌∷◌, Text, ◌==◌, ==_iff, find, find-remove,
  All, All-append, arith, if_cases,
}
use vcluster_private_cloud_c.Service.{HostService}
use vcluster_private_cloud_c.Tenant.{TenantCluster}

-- The object that a call replaces carries our ownership labels.
abbrev pub ReplacesOwned : TenantCluster → Write → Type 0
ReplacesOwned tc w = (labels : Labels) → w.replaced ≡ some labels → owned_by labels tc ≡ true

module _ (tc : TenantCluster) (writer : Writer) where
  abbrev Guarded : Applying → Type 0
  Guarded s = All (ReplacesOwned tc) s.writes

  log-Guarded :
      (kind : Kind) (name : Text) (outcome : Option ApiError) (keep : Pass → Pass) (w : Write)
      (s : Applying)
      → ReplacesOwned tc w
      → Guarded s
      → Guarded (after_write kind name outcome keep (log w s))
  unfolding after_write
  log-Guarded kind name none keep w s g h =
      All-append (ReplacesOwned tc) s.writes (w ∷ []) h (g, tt)
  log-Guarded kind name (some e) keep w s g h =
      All-append (ReplacesOwned tc) s.writes (w ∷ []) h (g, tt)

  creates :
      (kind : Kind) (name : Text) (labels : Labels)
      → ReplacesOwned tc (record { kind = kind; name = name; replaced = none; written = labels })
  creates kind name labels old e = absurd (ground (arith, e))

  replaces :
      (kind : Kind) (name : Text) (old labels : Labels)
      → owned_by old tc ≡ true
      → ReplacesOwned tc
          (record { kind = kind; name = name; replaced = some old; written = labels })
  replaces kind name old labels owned l e = ground (arith, e, owned)

  service-Guarded :
      (want : HostService) (reply : Reply LiveService) (s : Applying)
      → Guarded s
      → Guarded (apply_service_reply tc writer want reply s)
  unfolding apply_service_reply
  service-Guarded want absent s h =
      log-Guarded service want.name (writer.create service want.name) (keep_service want.name want)
        _ s (creates service want.name want.labels) h
  service-Guarded want (error e) s h = h
  service-Guarded want (have live) s h =
      let new = updated_service live want in
      if_cases Guarded (owned_by live.labels tc) _ _
        (λ owned.
          log-Guarded service want.name (writer.update service want.name)
            (keep_service want.name (as_host want new)) _ s
            (replaces service want.name live.labels new.labels owned) h)
        (λ foreign. h)

  replaced-Guarded :
      (kind : Kind) (name : Text) (labels : Labels) (reply : Reply Labels)
      (keep : Labels → Pass → Pass) (drop : Pass → Pass) (s : Applying)
      → Guarded s
      → Guarded (apply_replaced tc writer kind name labels reply keep drop s)
  unfolding apply_replaced
  replaced-Guarded kind name labels absent keep drop s h =
      log-Guarded kind name (writer.create kind name) (λ p. p) _ s (creates kind name labels) h
  replaced-Guarded kind name labels (error e) keep drop s h = h
  replaced-Guarded kind name labels (have old) keep drop s h =
      if_cases Guarded (owned_by old tc) _ _
        (λ owned.
          log-Guarded kind name (writer.update kind name) (keep (merge_labels old labels)) _ s
            (replaces kind name old (merge_labels old labels) owned) h)
        (λ foreign. h)

  each-Guarded :
      {A : Type 0} (of : Pass → List (Text × A)) (step : A → Applying → Applying)
      (names : List Text) (s : Applying)
      → ((want : A) (t : Applying) → Guarded t → Guarded (step want t))
      → Guarded s
      → Guarded (apply_each of step names s)
  unfolding apply_each
  each-Guarded of step [] s f h = h
  each-Guarded {A = A} of step (name ∷ names) s f h =
      each-Guarded of step names _ f (found (find ◌==◌ name (of s.state)))
    where
      found : (o : Option A) → Guarded (elim o [ none ↦ s | some want ↦ step want s ])
      found none = h
      found (some want) = f want s h

  -- Whatever the host holds and answers, a pass that has written nothing yet replaces only objects
  -- that carried the ownership labels of this TenantCluster.
  pub apply_all-guarded :
      (reader : Reader) (p : Pass)
      → All
          (ReplacesOwned tc)
          (apply_all tc writer reader (record { state = p; writes = [] })).writes
  unfolding apply_all apply_service apply_ingress apply_gateway apply_route
  apply_all-guarded reader p =
      each-Guarded (λ q. q.routes) (apply_route tc writer reader) _ _
        (λ want t h.
          replaced-Guarded route want.name want.labels (reader.route_at want.name) _ _ t h)
        (each-Guarded (λ q. q.gateways) (apply_gateway tc writer reader) _ _
          (λ want t h.
            replaced-Guarded gateway want.name want.labels (reader.gateway_at want.name) _ _ t h)
          (each-Guarded (λ q. q.ingresses) (apply_ingress tc writer reader) _ _
            (λ want t h.
              replaced-Guarded ingress want.name want.labels (reader.ingress_at want.name) _ _ t h)
            (each-Guarded (λ q. q.services) (apply_service tc writer reader) _ _
              (λ want t h. service-Guarded want (reader.service_at want.name) t h) tt)))

  -- If the host holds a Service of the wanted name without our labels, nothing is written to it,
  -- and the pass no longer desires a Service of that name, so that no status is read from it.
  pub apply_service-foreign :
      (reader : Reader) (want : HostService) (live : LiveService) (s : Applying)
      → reader.service_at want.name ≡ have live
      → owned_by live.labels tc ≡ false
      → ((apply_service tc writer reader want s).writes ≡ s.writes)
        × (find ◌==◌ want.name (apply_service tc writer reader want s).state.services ≡ none)
  unfolding apply_service apply_service_reply
  apply_service-foreign reader want live s e foreign =
      rw (e, foreign)
        (
          refl,
          ground (
            arith,
            find-remove ◌==◌ ==_iff want.name want.name s.state.services,
            ==_iff want.name want.name,
          ),
        )
