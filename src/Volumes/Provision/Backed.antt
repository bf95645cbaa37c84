-- ===== src/Volumes/Provision/Backed.antt =====
-- Which host claims and guest volumes are created for a guest's claims.
use vcluster_private_cloud_c.Go.{Library}
use vcluster_private_cloud_c.Meta.{Labels, read}
use vcluster_private_cloud_c.Ownership.{owned_by}
use vcluster_private_cloud_c.Pass.Apply.{Reply, have, absent, error, collide}
use vcluster_private_cloud_c.Pass.Prune.{HostObject}
use vcluster_private_cloud_c.Pass.{Pass, volume_claim}
use vcluster_private_cloud_c.Prelude.{
  ◌≡◌, ◌⊎◌, inl, inr, refl, sym, subst, ap, ◌∙◌, Bool, true, false, ◌&&◌, none, List, [], ◌∷◌, ◌++◌,
  Text, ◌==◌, find, is_empty, All, All-append, All-self, Any, Any-imp, if_cases, option_cases,
  if◌then◌else◌,
}
use vcluster_private_cloud_c.Storage.{
  GuestPvc, GuestPv, HostPvc, MappedPvc, mapped, refused, map_pvc, host_pvc_name, guest_pv_name,
  guest_pv_for_claim, selected_node_annotation,
}
use vcluster_private_cloud_c.Tenant.{TenantCluster}
use vcluster_private_cloud_c.Volumes.{
  Call, create_claim, create_pv, Work, World, attempt, any_error, create_error, issue, noted,
  storage_problem,
}
use vcluster_private_cloud_c.Volumes.Calls.{attempt_cases, append_nil, append_assoc}
use vcluster_private_cloud_c.Volumes.Provision.{
  is_listed, class_of, add_guest_pv, ensure_pv, ensure_host_claim, provision_pvc, provision_all,
}

module _ (lib : Library) (tc : TenantCluster) (w : World) (objs : List HostObject) where
  -- The host claim of a guest's claim is there: it was listed, it was created, or the uncached
  -- reader found it with the tenant's ownership labels.
  pub IsBacked : GuestPvc → Type 0
  IsBacked pvc =
      let host_name = host_pvc_name lib tc pvc.meta.uid in
      (is_listed host_name objs ≡ true)
      ⊎ (((want : HostPvc) × ((log : List Call) × ((map_pvc lib tc pvc (class_of pvc) ≡ mapped want)
                × (any_error (w.answer log (create_claim want)) ≡ none))))
          ⊎ ((log : List Call) × ((labels : Labels) × ((w.claim_at log host_name ≡ have labels)
                  × (owned_by labels tc ≡ true)))))

  -- A node was selected for the claim, or it is bound already.
  abbrev pub is_triggered : GuestPvc → Bool
  is_triggered pvc =
      if is_empty (read selected_node_annotation pvc.meta.annotations) && is_empty pvc.volume_name
      then false
      else true

  -- What a guest's claim justifies: the creation of the host claim that it is mapped to, if it was
  -- triggered and the host has nothing of that name; and the creation of its guest volume, if its
  -- host claim is there.
  pub Provisions : Call → GuestPvc → Type 0
  Provisions c pvc = elim c [
    | create_claim want ↦
        (map_pvc lib tc pvc (class_of pvc) ≡ mapped want)
        × ((is_triggered pvc ≡ true)
            × ((is_listed (host_pvc_name lib tc pvc.meta.uid) objs ≡ false)
                × ((log : List Call) × (w.claim_at log (host_pvc_name lib tc pvc.meta.uid)
                      ≡ absent))))
    | create_pv pv ↦
        (pv ≡ guest_pv_for_claim lib pvc (host_pvc_name lib tc pvc.meta.uid) (class_of pvc))
        × IsBacked pvc
    | _ ↦ ⊥
  ]

  module _ (pvcs : List GuestPvc) (s0 : Work) where
    record J (s : Work) : Type 0 where
      host_pvcs : s.storage.host_pvcs ≡ objs
      added : List Call
      log : s.calls ≡ s0.calls ++ added
      calls : All (λ c. Any (Provisions c) pvcs) added

    call-J : (c : Call) (s : Work) → Any (Provisions c) pvcs → J s → J (issue c s)
    call-J c s q h = record {
      host_pvcs = h.host_pvcs;
      added = h.added ++ c ∷ [];
      log = ap (λ l. l ++ c ∷ []) h.log ∙ append_assoc s0.calls h.added (c ∷ []);
      calls = All-append (λ c. Any (Provisions c) pvcs) h.added (c ∷ []) h.calls (q, tt);
    }

    state-J : (p : Pass) (s : Work) → J s → J (record s { state = p })
    state-J p s h = record {
      host_pvcs = h.host_pvcs;
      added = h.added;
      log = h.log;
      calls = h.calls;
    }

    add-J : (pv : GuestPv) (s : Work) → J s → J (add_guest_pv pv s)
    unfolding add_guest_pv
    add-J pv s h = record { host_pvcs = h.host_pvcs; added = h.added; log = h.log; calls = h.calls }

    module _ (pvc : GuestPvc) (listed : Any (λ y. y ≡ pvc) pvcs) where
      by_pvc : (P : GuestPvc → Type 0) → P pvc → Any P pvcs
      by_pvc P h = Any-imp (λ y e. subst P (sym e) h) pvcs listed

      ensure_pv-J : (s : Work) → IsBacked pvc → J s → J (ensure_pv lib tc w pvc s)
      unfolding ensure_pv Provisions
      ensure_pv-J s backed h =
          let pv = guest_pv_for_claim lib pvc (host_pvc_name lib tc pvc.meta.uid) (class_of pvc) in
          option_cases J (find ◌==◌ (guest_pv_name pvc.meta.uid) s.storage.guest_pvs) _ (λ there. s)
            (λ e.
              let next =
                call-J (create_pv pv) s (by_pvc (Provisions (create_pv pv)) (refl, backed)) h in
              attempt_cases J w create_error (create_pv pv) (add_guest_pv pv) (noted pv.name) s
                (add-J pv (issue (create_pv pv) s) next) (λ q. state-J _ _ next))
            (λ there e. h)

      ensure_host_claim-J :
          (s : Work)
          → is_triggered pvc ≡ true
          → is_listed (host_pvc_name lib tc pvc.meta.uid) objs ≡ false
          → J s
          → J (ensure_host_claim lib tc w pvc s)
      unfolding ensure_host_claim Provisions IsBacked
      ensure_host_claim-J s on unlisted h = at (map_pvc lib tc pvc (class_of pvc)) refl
        where
          host_name : Text
          host_name = host_pvc_name lib tc pvc.meta.uid

          reply :
              (want : HostPvc) (r : Reply Labels)
              → map_pvc lib tc pvc (class_of pvc) ≡ mapped want
              → w.claim_at s.calls host_name ≡ r
              → J (elim r [
                | absent ↦
                    attempt w any_error
                      (create_claim want)
                      (ensure_pv lib tc w pvc)
                      (storage_problem host_name)
                      s
                | error e ↦ storage_problem host_name e s
                | have labels ↦
                    if owned_by labels tc
                    then ensure_pv lib tc w pvc s
                    else record s { state = collide volume_claim host_name s.state }
              ])
          reply want absent m e =
              let c = create_claim want in
              let next = call-J c s (by_pvc (Provisions c) (m, (on, (unlisted, (s.calls, e))))) h in
              option_cases J (any_error (w.answer s.calls c)) (ensure_pv lib tc w pvc (issue c s))
                (λ x. storage_problem host_name x (issue c s))
                (λ q. ensure_pv-J (issue c s) (inr (inl (want, (s.calls, (m, q))))) next)
                (λ x q. state-J _ _ next)
          reply want (error x) m e = state-J _ s h
          reply want (have labels) m e =
              if_cases J (owned_by labels tc) (ensure_pv lib tc w pvc s) _
                (λ o. ensure_pv-J s (inr (inr (s.calls, (labels, (e, o))))) h) (λ o. state-J _ s h)

          at :
              (m : MappedPvc)
              → map_pvc lib tc pvc (class_of pvc) ≡ m
              → J (elim m [
                | refused r ↦ s
                | mapped want ↦ elim (w.claim_at s.calls host_name) [
                  | absent ↦
                      attempt w any_error
                        (create_claim want)
                        (ensure_pv lib tc w pvc)
                        (storage_problem host_name)
                        s
                  | error e ↦ storage_problem host_name e s
                  | have labels ↦
                      if owned_by labels tc
                      then ensure_pv lib tc w pvc s
                      else record s { state = collide volume_claim host_name s.state }
                ]
              ])
          at (refused r) e = h
          at (mapped want) e = reply want (w.claim_at s.calls host_name) e refl

      provision_pvc-J : (s : Work) → J s → J (provision_pvc lib tc w pvc s)
      unfolding provision_pvc IsBacked
      provision_pvc-J s h =
          let host_name = host_pvc_name lib tc pvc.meta.uid in
          let waits =
            is_empty (read selected_node_annotation pvc.meta.annotations)
            && is_empty pvc.volume_name in
          if_cases J (is_listed host_name s.storage.host_pvcs) (ensure_pv lib tc w pvc s) _
            (λ e. ensure_pv-J s (inl (subst (λ l. is_listed host_name l ≡ true) h.host_pvcs e)) h)
            (λ e.
              if_cases J waits s (ensure_host_claim lib tc w pvc s) (λ q. h)
                (λ q.
                  ensure_host_claim-J s (ap (λ b. if b then false else true) q)
                    (subst (λ l. is_listed host_name l ≡ false) h.host_pvcs e) h))

    provision_all-J :
        (some_of : List GuestPvc) (s : Work)
        → All (λ x. Any (λ y. y ≡ x) pvcs) some_of
        → J s
        → J (provision_all lib tc w some_of s)
    unfolding provision_all
    provision_all-J [] s m h = h
    provision_all-J (pvc ∷ rest) s (m, ms) h = provision_all-J rest _ ms (provision_pvc-J pvc m s h)

module _ (lib : Library) (tc : TenantCluster) (w : World) where
  -- Every call issued to provision the gathered claims belongs to one of them: its host claim is
  -- created as it is mapped, only after a node was selected or it was bound, and only if no host
  -- claim of that name was listed and the uncached reader found none; its guest volume is created
  -- only if the host claim was listed, or its creation succeeded, or the uncached reader found it
  -- with the tenant's ownership labels.
  pub provision_all-Provisions :
      (s : Work)
      → (added : List Call) × (((provision_all lib tc w s.storage.provisionable s).calls
            ≡ s.calls ++ added)
          × All
              (λ c. Any (Provisions lib tc w s.storage.host_pvcs c) s.storage.provisionable)
              added)
  provision_all-Provisions s =
      let pvcs = s.storage.provisionable in
      let h =
        provision_all-J lib tc w s.storage.host_pvcs pvcs s pvcs s (All-self pvcs)
          (record { host_pvcs = refl; added = []; log = sym (append_nil s.calls); calls = tt }) in
      (h.added, (h.log, h.calls))
