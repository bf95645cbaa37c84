-- ===== src/Volumes/Classes/Mirrored.antt =====
-- The guest's managed StorageClasses become the mirrors of the offered ones.
use vcluster_private_cloud_c.Go.{Library}
use vcluster_private_cloud_c.Meta.{Labels, lookup, read}
use vcluster_private_cloud_c.Pass.Listing.{ApiError}
use vcluster_private_cloud_c.Prelude.{
  ◌≡◌, inl, inr, refl, sym, ap, ◌∙◌, true, Option, none, some, List, [], ◌∷◌, ◌++◌, Text, ◌==◌,
  ==_iff, subst, ◌&&◌, Bool, false, codes, find, put, remove, Bool-cases, Option-cases,
  option_cases, arith, if◌then◌else◌,
}
use vcluster_private_cloud_c.Storage.{
  StorageClass, driver_name, mirror_storage_class, default_class_annotation,
}
use vcluster_private_cloud_c.Tenant.{TenantCluster}
use vcluster_private_cloud_c.Volumes.{
  Work, World, Call, Answer, accepted, create_class, delete_class, attempt, any_error, create_error,
  error_of, noted, issue,
}
use vcluster_private_cloud_c.Volumes.Calls.{append_nil, append_assoc}
use vcluster_private_cloud_c.Volumes.Classes.{
  same_text_eq, same_map, same_text, included, sc_equal, apply_class, apply_classes,
}
use vcluster_private_cloud_c.Volumes.Teardown.{drop_classes}

-- The managed classes of the guest by name.
abbrev pub ClassMap : Type 0
ClassMap = List (Text × StorageClass)

-- What a call does with them: a class that is there is not created again.
abbrev pub created : StorageClass → Option StorageClass → ClassMap → ClassMap
created sc none m = put ◌==◌ sc.name sc m
created sc (some there) m = m

unfoldable pub effect : Call → ClassMap → ClassMap
effect c m = elim c [
  | create_class sc ↦ created sc (find ◌==◌ sc.name m) m
  | delete_class name ↦ remove ◌==◌ name m
  | _ ↦ m
]

unfoldable pub effects : List Call → ClassMap → ClassMap
effects [] m = m
effects (c ∷ cs) m = effects cs (effect c m)

pub effects-append :
    (cs ds : List Call) (m : ClassMap) → effects (cs ++ ds) m ≡ effects ds (effects cs m)
unfolding effects
effects-append [] ds m = refl
effects-append (c ∷ cs) ds m = effects-append cs ds (effect c m)

-- The class that a guest is to have for an offered one: of the guest's driver, bound when it is
-- first used, deleted with its claim, without parameters, and the default class as on the host.
pub record IsMirrorOf (host live : StorageClass) : Type 0 where
  pub name : live.name ≡ host.name
  pub provisioner : live.provisioner ≡ driver_name
  pub binding_mode : live.binding_mode ≡ some (codes "WaitForFirstConsumer")
  pub reclaim_policy : live.reclaim_policy ≡ some (codes "Delete")
  pub parameters : live.parameters ≡ []
  pub default_class :
      read default_class_annotation live.annotations
      ≡ read default_class_annotation host.annotations

mirror-default :
    (host : StorageClass)
    → read default_class_annotation (mirror_storage_class host).annotations
      ≡ read default_class_annotation host.annotations
unfolding mirror_storage_class read lookup find
mirror-default host = elim (Option-cases (lookup default_class_annotation host.annotations)) [
  | inl e ↦ rw (e, read) refl
  | inr (v, e) ↦ rw (e, read) refl
]

pub mirror-IsMirrorOf : (host : StorageClass) → IsMirrorOf host (mirror_storage_class host)
unfolding mirror_storage_class
mirror-IsMirrorOf host = record {
  name = refl;
  provisioner = refl;
  binding_mode = refl;
  reclaim_policy = refl;
  parameters = refl;
  default_class = mirror-default host;
}

both : (a b : Bool) → a && b ≡ true → (a ≡ true) × (b ≡ true)
both true true e = (refl, refl)
both true false e = ground arith
both false b e = ground arith

no_parameters : (l : Labels) → same_map l [] ≡ true → l ≡ []
unfolding included lookup find same_text
no_parameters [] e = refl
no_parameters ((k, v) ∷ l) e = ground arith

-- A class that the program takes for the mirror is it.
pub sc_equal-IsMirrorOf :
    (host live : StorageClass)
    → live.name ≡ host.name
    → sc_equal live (mirror_storage_class host) ≡ true
    → IsMirrorOf host live
unfolding sc_equal
sc_equal-IsMirrorOf host live named e =
    let want = mirror_storage_class host in
    let mirror = mirror-IsMirrorOf host in
    let (p, e1) = both (live.provisioner == want.provisioner) _ e in
    let (b, e2) = both (same_text live.binding_mode want.binding_mode) _ e1 in
    let (r, e3) = both (same_text live.reclaim_policy want.reclaim_policy) _ e2 in
    let (m, d) = both (same_map live.parameters want.parameters) _ e3 in
    record {
      name = named;
      provisioner = (==_iff live.provisioner want.provisioner).0 p ∙ mirror.provisioner;
      binding_mode = same_text_eq live.binding_mode want.binding_mode b ∙ mirror.binding_mode;
      reclaim_policy =
          same_text_eq live.reclaim_policy want.reclaim_policy r ∙ mirror.reclaim_policy;
      parameters =
          no_parameters live.parameters
            (subst (λ l. same_map live.parameters l ≡ true) mirror.parameters m);
      default_class =
          (==_iff (read default_class_annotation live.annotations)
              (read default_class_annotation want.annotations)).0
            d
          ∙ mirror.default_class;
    }

-- What the guest has under the name of an offered class is its mirror.
unfoldable pub Mirrors : StorageClass → Option StorageClass → Type 0
Mirrors host none = ⊥
Mirrors host (some live) = IsMirrorOf host live

-- The calls for one offered class, and for all.
unfoldable pub steps : ClassMap → Text → StorageClass → List Call
steps there name host =
    let want = mirror_storage_class host in
    elim (find ◌==◌ name there) [
      | none ↦ create_class want ∷ []
      | some live ↦
          if sc_equal live want then [] else delete_class live.name ∷ create_class want ∷ []
    ]

unfoldable pub all_steps : ClassMap → ClassMap → List Call
all_steps there [] = []
all_steps there ((name, host) ∷ rest) = steps there name host ++ all_steps there rest

-- The calls for the classes that are not offered.
unfoldable pub drops : ClassMap → List StorageClass → List Call
drops offered [] = []
drops offered (sc ∷ scs) =
    let rest = drops offered scs in
    elim (find ◌==◌ sc.name offered) [ none ↦ delete_class sc.name ∷ rest | some host ↦ rest ]

-- The servers accept every call.
unfoldable pub Accepts : World → Type 0
Accepts w = (log : List Call) (c : Call) → w.answer log c ≡ accepted

module _ (w : World) (accepts : Accepts w) where
  -- From `s`, the calls `cs` are issued, and the storage state stays.
  unfoldable pub Issues : Work → List Call → Work → Type 0
  Issues s cs t = (t.calls ≡ s.calls ++ cs) × (t.storage ≡ s.storage)

  accepted_once :
      (P : Work → Type 0) (error : Answer → Option ApiError) (c : Call) (next : Work → Work)
      (failed : ApiError → Work → Work) (s : Work)
      → error accepted ≡ none
      → P (next (issue c s))
      → P (attempt w error c next failed s)
  unfolding Accepts
  accepted_once P error c next failed s e h =
      option_cases P (error (w.answer s.calls c)) (next (issue c s)) (λ x. failed x (issue c s))
        (λ q. h) (λ x q. absurd (ground (arith, q, accepts s.calls c, e)))

  apply_class-steps :
      (there : ClassMap) (name : Text) (host : StorageClass) (s : Work)
      → Issues s (steps there name host) (apply_class w there name host s)
  unfolding apply_class steps Issues
  apply_class-steps there name host s =
      let want = mirror_storage_class host in
      elim (Option-cases (find ◌==◌ name there)) [
        | inl e ↦
            rw (apply_class, steps, e)
              (accepted_once (Issues s (create_class want ∷ [])) create_error (create_class want)
                (λ t. t) (noted name) s refl (refl, refl))
        | inr (live, e) ↦ elim (Bool-cases (sc_equal live want)) [
          | inl q ↦ rw (apply_class, steps, e, q) (sym (append_nil s.calls), refl)
          | inr q ↦
              rw (apply_class, steps, e, q)
                (accepted_once (Issues s (delete_class live.name ∷ create_class want ∷ [])) error_of
                  (delete_class live.name)
                  (attempt w any_error (create_class want) (λ t. t) (noted name)) (noted name) s
                  refl
                  (accepted_once (Issues s (delete_class live.name ∷ create_class want ∷ []))
                    any_error (create_class want) (λ t. t) (noted name)
                    (issue (delete_class live.name) s) refl
                    (
                      append_assoc s.calls (delete_class live.name ∷ []) (create_class want ∷ []),
                      refl,
                    )))
        ]
      ]

  pub Issues-trans :
      (a b c : Work) (cs ds : List Call) → Issues a cs b → Issues b ds c → Issues a (cs ++ ds) c
  unfolding Issues
  Issues-trans a b c cs ds (l, e) (k, q) =
      (k ∙ (ap (λ x. x ++ ds) l ∙ append_assoc a.calls cs ds), q ∙ e)

  pub apply_classes-steps :
      (there offered : ClassMap) (s : Work)
      → Issues s (all_steps there offered) (apply_classes w there offered s)
  unfolding apply_classes all_steps Issues
  apply_classes-steps there [] s = (sym (append_nil s.calls), refl)
  apply_classes-steps there ((name, host) ∷ rest) s =
      let t = apply_class w there name host s in
      Issues-trans s t (apply_classes w there rest t) (steps there name host) (all_steps there rest)
        (apply_class-steps there name host s) (apply_classes-steps there rest t)

  module _ (lib : Library) (tc : TenantCluster) where
    pub drop_classes-drops :
        (scs : List StorageClass) (s : Work)
        → Issues s (drops s.storage.offerable scs) (drop_classes lib tc w scs s)
    unfolding drop_classes drops Issues
    drop_classes-drops [] s = (sym (append_nil s.calls), refl)
    drop_classes-drops (sc ∷ scs) s =
        let offered = s.storage.offerable in
        elim (Option-cases (find ◌==◌ sc.name offered)) [
          | inr (host, e) ↦ rw (drop_classes, drops, e) (drop_classes-drops scs s)
          | inl e ↦
              let c = delete_class sc.name in
              rw (drop_classes, drops, e)
                (accepted_once (λ t. Issues s (c ∷ drops offered scs) (drop_classes lib tc w scs t))
                  error_of c (λ t. t) (noted sc.name) s refl
                  (Issues-trans s (issue c s) (drop_classes lib tc w scs (issue c s)) (c ∷ [])
                    (drops offered scs) (refl, refl) (drop_classes-drops scs (issue c s))))
        ]
