-- ===== src/Volumes/Calls.antt =====
-- What is shown of all the calls that the storage slice issues.
use vcluster_private_cloud_c.Ownership.{owned_by}
use vcluster_private_cloud_c.Pass.Listing.{ApiError}
use vcluster_private_cloud_c.Pass.Prune.{HostObject, delete_owned, after_delete}
use vcluster_private_cloud_c.Pass.{Pass, Ref, same_ref}
use vcluster_private_cloud_c.Prelude.{
  ◌≡◌, inl, inr, refl, sym, ap, ◌∙◌, has, true, Option, none, some, List, [], ◌∷◌, ◌++◌, All,
  All-append, Bool-cases, option_cases,
}
use vcluster_private_cloud_c.Tenant.{TenantCluster}
use vcluster_private_cloud_c.Volumes.{
  Answer, Call, delete_claim, Work, World, attempt, issue, error_of, delete_owned_claim,
}

-- A property of a call with and without an error.
pub attempt_cases :
    (P : Work → Type 0) (w : World) (error : Answer → Option ApiError) (c : Call)
    (next : Work → Work) (failed : ApiError → Work → Work) (s : Work)
    → P (next (issue c s))
    → ((e : ApiError) → P (failed e (issue c s)))
    → P (attempt w error c next failed s)
attempt_cases P w error c next failed s h k =
    option_cases P (error (w.answer s.calls c)) (next (issue c s)) (λ e. failed e (issue c s))
      (λ e. h) (λ e q. k e)

pub every : {A : Type 0} (P : A → Type 0) → ((a : A) → P a) → (xs : List A) → All P xs
every P f [] = tt
every P f (x ∷ xs) = (f x, every P f xs)

pub append_nil : {A : Type 0} (xs : List A) → xs ++ [] ≡ xs
append_nil [] = refl
append_nil (x ∷ xs) = ap (λ l. x ∷ l) (append_nil xs)

pub append_assoc : {A : Type 0} (xs ys zs : List A) → (xs ++ ys) ++ zs ≡ xs ++ (ys ++ zs)
append_assoc [] ys zs = refl
append_assoc (x ∷ xs) ys zs = ap (λ l. x ∷ l) (append_assoc xs ys zs)

after_delete-wants :
    (obj : HostObject) (o : Option ApiError) (p : Pass) (r : Ref)
    → has same_ref r p.want_finalizer ≡ true
    → has same_ref r (after_delete obj o p).want_finalizer ≡ true
unfolding after_delete
after_delete-wants obj none p r h = h
after_delete-wants obj (some e) p r h = h

-- From the work `s0` on, the storage state is untouched, the calls added satisfy `Q`, and no
-- guest object that had to keep its finalizer is let go.
pub record Steady (s0 : Work) (Q : Call → Type 0) (s : Work) : Type 0 where
  pub storage : s.storage ≡ s0.storage
  pub added : List Call
  pub log : s.calls ≡ s0.calls ++ added
  pub calls : All Q added
  pub wants :
      (r : Ref)
      → has same_ref r s0.state.want_finalizer ≡ true
      → has same_ref r s.state.want_finalizer ≡ true

module _ (Q : Call → Type 0) where
  pub Steady-refl : (s : Work) → Steady s Q s
  Steady-refl s = record {
    storage = refl;
    added = [];
    log = sym (append_nil s.calls);
    calls = tt;
    wants = λ r h. h;
  }

  pub Steady-trans : (a b c : Work) → Steady a Q b → Steady b Q c → Steady a Q c
  Steady-trans a b c h k = record {
    storage = k.storage ∙ h.storage;
    added = h.added ++ k.added;
    log = k.log ∙ (ap (λ l. l ++ k.added) h.log ∙ append_assoc a.calls h.added k.added);
    calls = All-append Q h.added k.added h.calls k.calls;
    wants = λ r x. k.wants r (h.wants r x);
  }

module _ (s0 : Work) (Q : Call → Type 0) where
  -- More calls.
  pub more-Steady :
      (cs : List Call) (s : Work)
      → All Q cs
      → Steady s0 Q s
      → Steady s0 Q (record s { calls = s.calls ++ cs })
  more-Steady cs s q h = record {
    storage = h.storage;
    added = h.added ++ cs;
    log = ap (λ l. l ++ cs) h.log ∙ append_assoc s0.calls h.added cs;
    calls = All-append Q h.added cs h.calls q;
    wants = h.wants;
  }

  -- Another state of the pass, which keeps the finalizers.
  pub state-Steady :
      (p : Pass) (s : Work)
      → ((r : Ref)
          → has same_ref r s.state.want_finalizer ≡ true
          → has same_ref r p.want_finalizer ≡ true)
      → Steady s0 Q s
      → Steady s0 Q (record s { state = p })
  state-Steady p s k h = record {
    storage = h.storage;
    added = h.added;
    log = h.log;
    calls = h.calls;
    wants = λ r x. k r (h.wants r x);
  }

  -- A call of which errors are only noted.
  pub attempt-Steady :
      (w : World) (error : Answer → Option ApiError) (c : Call) (failed : ApiError → Work → Work)
      (s : Work)
      → ((e : ApiError) (t : Work) → Steady s0 Q t → Steady s0 Q (failed e t))
      → Q c
      → Steady s0 Q s
      → Steady s0 Q (attempt w error c (λ t. t) failed s)
  attempt-Steady w error c failed s k q h =
      let there = more-Steady (c ∷ []) s (q, tt) h in
      attempt_cases (Steady s0 Q) w error c (λ t. t) failed s there (λ e. k e (issue c s) there)

  pub delete_owned_claim-Steady :
      (tc : TenantCluster) (w : World) (obj : HostObject) (s : Work)
      → (owned_by obj.labels tc ≡ true → Q (delete_claim obj))
      → Steady s0 Q s
      → Steady s0 Q (delete_owned_claim tc w obj s)
  unfolding delete_owned_claim delete_owned
  delete_owned_claim-Steady tc w obj s q h = elim (Bool-cases (owned_by obj.labels tc)) [
    | inl e ↦
        let answer = error_of (w.answer s.calls (delete_claim obj)) in
        rw e (
          state-Steady (after_delete obj answer s.state) _ (after_delete-wants obj answer s.state)
            (more-Steady (delete_claim obj ∷ []) s (q e, tt) h))
    | inr e ↦ rw e (more-Steady [] s tt h)
  ]
