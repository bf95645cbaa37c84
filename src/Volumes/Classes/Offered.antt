-- ===== src/Volumes/Classes/Offered.antt =====
-- What the calls for the offered classes do to the guest's classes.
use vcluster_private_cloud_c.Prelude.{
  ◌≡◌, ◌≢◌, inl, inr, refl, sym, subst, ap, ◌∙◌, false, Option, none, some, List, [], ◌∷◌, Text,
  ◌==◌, ==_iff, find, put, remove, find-put, find-remove, All, Bool-cases, Option-cases, arith,
  if◌then◌else◌,
}
use vcluster_private_cloud_c.Storage.{StorageClass, mirror_storage_class}
use vcluster_private_cloud_c.Volumes.{create_class}
use vcluster_private_cloud_c.Volumes.Classes.{sc_equal}
use vcluster_private_cloud_c.Volumes.Classes.Mirrored.{
  ClassMap, effect, effects, effects-append, created, mirror-IsMirrorOf, sc_equal-IsMirrorOf,
  Mirrors, steps, all_steps,
}

pub All-both :
    {A : Type 0} (P Q R : A → Type 0)
    → ((a : A) → P a → Q a → R a)
    → (xs : List A) → All P xs
    → All Q xs
    → All R xs
All-both P Q R f [] h k = tt
All-both P Q R f (x ∷ xs) (p, h) (q, k) = (f x p q, All-both P Q R f xs h k)

mirror-name : (sc : StorageClass) → (mirror_storage_class sc).name ≡ sc.name
unfolding mirror_storage_class
mirror-name sc = refl

-- The entries are named by their keys.
unfoldable pub IsNamed : ClassMap → Type 0
IsNamed there = (name : Text) (sc : StorageClass) → find ◌==◌ name there ≡ some sc → sc.name ≡ name

-- A mirror that is created is there, if no class of its name was.
create-here :
    (name : Text) (host : StorageClass) (m : ClassMap)
    → host.name ≡ name
    → find ◌==◌ name m ≡ none
    → Mirrors host (find ◌==◌ name (effect (create_class (mirror_storage_class host)) m))
unfolding effect Mirrors
create-here name host m e free =
    let want = mirror_storage_class host in
    let named : want.name ≡ name = mirror-name host ∙ e in
    let same = (==_iff want.name name).1 named in
    let made : find ◌==◌ name (put ◌==◌ want.name want m) ≡ some want =
      find-put ◌==◌ ==_iff want.name name want m
      ∙ ap (λ b. if b then some want else find ◌==◌ name m) same in
    let put_in : created want (find ◌==◌ want.name m) m ≡ put ◌==◌ want.name want m =
      ap (λ o. created want o m) (ap (λ n. find ◌==◌ n m) named ∙ free) in
    subst (Mirrors host) (sym (ap (find ◌==◌ name) put_in ∙ made)) (mirror-IsMirrorOf host)

created-other :
    (want : StorageClass) (n : Text) (o : Option StorageClass) (m : ClassMap)
    → (want.name == n) ≡ false
    → find ◌==◌ n (created want o m) ≡ find ◌==◌ n m
created-other want n none m apart =
    find-put ◌==◌ ==_iff want.name n want m ∙ ap (λ b. if b then some want else find ◌==◌ n m) apart
created-other want n (some there) m apart = refl

create-other :
    (name n : Text) (host : StorageClass) (m : ClassMap)
    → host.name ≡ name
    → (name == n) ≡ false
    → find ◌==◌ n (effect (create_class (mirror_storage_class host)) m) ≡ find ◌==◌ n m
unfolding effect
create-other name n host m e differs =
    let want = mirror_storage_class host in
    created-other want n (find ◌==◌ want.name m) m
      (ap (λ x. x == n) (mirror-name host ∙ e) ∙ differs)

pub remove-other :
    (name n : Text) (m : ClassMap)
    → (name == n) ≡ false
    → find ◌==◌ n (remove ◌==◌ name m) ≡ find ◌==◌ n m
remove-other name n m differs =
    find-remove ◌==◌ ==_iff name n m ∙ ap (λ b. if b then none else find ◌==◌ n m) differs

pub remove-here :
    (name n : Text) (m : ClassMap) → name ≡ n → find ◌==◌ n (remove ◌==◌ name m) ≡ none
remove-here name n m e =
    find-remove ◌==◌ ==_iff name n m
    ∙ ap (λ b. if b then none else find ◌==◌ n m) ((==_iff name n).1 e)

-- No two entries have one key, and the classes are named by their keys.
unfoldable pub IsKeyed : ClassMap → Type 0
IsKeyed [] = Unit
IsKeyed ((name, host) ∷ rest) = (host.name ≡ name) × (All (λ x. x.0 ≢ name) rest × IsKeyed rest)

pub empty-IsNamed : IsNamed []
unfolding IsNamed find
empty-IsNamed name sc e = absurd (ground (arith, e))

module _ (there : ClassMap) (named : IsNamed there) where
  -- The calls for one offered class, on a map that has of it what was listed.
  steps-here :
      (name : Text) (host : StorageClass) (m : ClassMap)
      → host.name ≡ name
      → find ◌==◌ name m ≡ find ◌==◌ name there
      → Mirrors host (find ◌==◌ name (effects (steps there name host) m))
  unfolding steps effects effect Mirrors IsNamed
  steps-here name host m e same = elim (Option-cases (find ◌==◌ name there)) [
    | inl q ↦ rw (steps, q) (create-here name host m e (same ∙ q))
    | inr (live, q) ↦ elim (Bool-cases (sc_equal live (mirror_storage_class host))) [
      | inl r ↦
          rw (steps, q, r)
            (subst (Mirrors host) (sym (same ∙ q))
              (sc_equal-IsMirrorOf host live (named name live q ∙ sym e) r))
      | inr r ↦
          rw (steps, q, r)
            (create-here name host (remove ◌==◌ live.name m) e
              (remove-here live.name name m (named name live q)))
    ]
  ]

  steps-other :
      (name n : Text) (host : StorageClass) (m : ClassMap)
      → host.name ≡ name
      → (name == n) ≡ false
      → find ◌==◌ n (effects (steps there name host) m) ≡ find ◌==◌ n m
  unfolding steps effects effect IsNamed
  steps-other name n host m e differs = elim (Option-cases (find ◌==◌ name there)) [
    | inl q ↦ rw (steps, q) (create-other name n host m e differs)
    | inr (live, q) ↦ elim (Bool-cases (sc_equal live (mirror_storage_class host))) [
      | inl r ↦ rw (steps, q, r) refl
      | inr r ↦
          rw (steps, q, r)
            (create-other name n host (remove ◌==◌ live.name m) e differs
              ∙ remove-other live.name n m (ap (λ x. x == n) (named name live q) ∙ differs))
    ]
  ]

  differ : (name n : Text) → name ≢ n → (name == n) ≡ false
  differ name n d = ground (arith, ==_iff name n, d)

  all_steps-other :
      (offered : ClassMap) (n : Text) (m : ClassMap)
      → IsKeyed offered
      → All (λ x. x.0 ≢ n) offered
      → find ◌==◌ n (effects (all_steps there offered) m) ≡ find ◌==◌ n m
  unfolding all_steps effects IsKeyed
  all_steps-other [] n m k a = refl
  all_steps-other ((name, host) ∷ rest) n m (e, (apart, k)) (d, a) =
      ap (find ◌==◌ n) (effects-append (steps there name host) (all_steps there rest) m)
      ∙ (all_steps-other rest n (effects (steps there name host) m) k a
          ∙ steps-other name n host m e (differ name n d))

  -- What the guest has of a name, by what is offered under it.
  unfoldable pub Agrees : Option StorageClass → Option StorageClass → Option StorageClass → Type 0
  Agrees none before now = now ≡ before
  Agrees (some host) before now = Mirrors host now

  pub all_steps-Agrees :
      (offered : ClassMap) (n : Text) (m : ClassMap)
      → IsKeyed offered
      → All (λ x. find ◌==◌ x.0 m ≡ find ◌==◌ x.0 there) offered
      → Agrees
          (find ◌==◌ n offered)
          (find ◌==◌ n m)
          (find ◌==◌ n (effects (all_steps there offered) m))
  unfolding all_steps effects IsKeyed find Agrees
  all_steps-Agrees [] n m k same = refl
  all_steps-Agrees ((name, host) ∷ rest) n m (e, (apart, k)) (same, others) =
      let cs = steps there name host in
      let m1 = effects cs m in
      let split : effects (all_steps there ((name, host) ∷ rest)) m
          ≡ effects (all_steps there rest) m1 =
        effects-append cs (all_steps there rest) m in
      let still : All (λ x. find ◌==◌ x.0 m1 ≡ find ◌==◌ x.0 there) rest =
        All-both (λ x. x.0 ≢ name) (λ x. find ◌==◌ x.0 m ≡ find ◌==◌ x.0 there) _
          (λ x d q. steps-other name x.0 host m e (differ name x.0 (λ y. d (sym y))) ∙ q) rest apart
          others in
      subst (λ z. Agrees (find ◌==◌ n ((name, host) ∷ rest)) (find ◌==◌ n m) (find ◌==◌ n z))
        (sym split)
        (elim (Bool-cases (name == n)) [
          | inl q ↦
              let is : name ≡ n = (==_iff name n).0 q in
              let kept =
                all_steps-other rest n m1 k (subst (λ y. All (λ x. x.0 ≢ y) rest) is apart) in
              rw q (
                subst (Mirrors host) (sym kept)
                  (subst (λ y. Mirrors host (find ◌==◌ y m1)) is (steps-here name host m e same)))
          | inr q ↦ rw q (
              subst
                (λ b. Agrees (find ◌==◌ n rest) b (find ◌==◌ n (effects (all_steps there rest) m1)))
                (steps-other name n host m e q) (all_steps-Agrees rest n m1 k still))
        ])
