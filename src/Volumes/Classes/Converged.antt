-- ===== src/Volumes/Classes/Converged.antt =====
-- After the calls for the classes, the guest has the mirrors of the offered ones, and no others.
use vcluster_private_cloud_c.Go.{Library}
use vcluster_private_cloud_c.Prelude.{
  ◌≡◌, ◌⊎◌, inl, inr, refl, sym, subst, ap, ◌∙◌, Option, none, some, List, [], ◌∷◌, ◌++◌, Text,
  ◌==◌, ==_iff, find, put, remove, find-put, Any, Bool-cases, Option-cases, arith, if◌then◌else◌,
}
use vcluster_private_cloud_c.Storage.{StorageClass}
use vcluster_private_cloud_c.Tenant.{TenantCluster}
use vcluster_private_cloud_c.Volumes.{Work, World, Call}
use vcluster_private_cloud_c.Volumes.Calls.{every, append_assoc}
use vcluster_private_cloud_c.Volumes.Classes.{existing, apply_guest_storage_classes}
use vcluster_private_cloud_c.Volumes.Classes.Mirrored.{
  ClassMap, effect, effects, effects-append, Mirrors, all_steps, drops, Accepts, Issues,
  apply_classes-steps, drop_classes-drops,
}
use vcluster_private_cloud_c.Volumes.Classes.Offered.{
  remove-other, remove-here, IsNamed, IsKeyed, empty-IsNamed, Agrees, all_steps-Agrees,
}
use vcluster_private_cloud_c.Volumes.Teardown.{drop_classes}

module _ (offered : ClassMap) where
  -- A name that is offered is not dropped.
  drops-offered :
      (scs : List StorageClass) (n : Text) (host : StorageClass) (m : ClassMap)
      → find ◌==◌ n offered ≡ some host
      → find ◌==◌ n (effects (drops offered scs) m) ≡ find ◌==◌ n m
  unfolding drops effects effect
  drops-offered [] n host m e = refl
  drops-offered (sc ∷ scs) n host m e = elim (Option-cases (find ◌==◌ sc.name offered)) [
    | inr (h, q) ↦ rw (drops, q) (drops-offered scs n host m e)
    | inl q ↦
        rw (drops, q)
          (drops-offered scs n host (remove ◌==◌ sc.name m) e
            ∙ remove-other sc.name n m (ground (arith, ==_iff sc.name n, q, e)))
  ]

  -- A name that is not offered is dropped, if the guest has it.
  drops-other :
      (scs : List StorageClass) (n : Text) (m : ClassMap)
      → find ◌==◌ n offered ≡ none
      → (find ◌==◌ n m ≡ none) ⊎ Any (λ sc. sc.name ≡ n) scs
      → find ◌==◌ n (effects (drops offered scs) m) ≡ none
  unfolding drops effects effect
  drops-other [] n m e (inl h) = h
  drops-other [] n m e (inr h) = absurd h
  drops-other (sc ∷ scs) n m e h = elim (Option-cases (find ◌==◌ sc.name offered)) [
    | inr (host, q) ↦
        rw (drops, q)
          (drops-other scs n m e (elim h [
            | inl x ↦ inl x
            | inr (inl y) ↦
                absurd (ground (arith, subst (λ z. find ◌==◌ z offered ≡ some host) y q, e))
            | inr (inr z) ↦ inr z
          ]))
    | inl q ↦
        rw (drops, q)
          (drops-other scs n (remove ◌==◌ sc.name m) e (elim h [
            | inl x ↦ inl (elim (Bool-cases (sc.name == n)) [
              | inl same ↦ remove-here sc.name n m ((==_iff sc.name n).0 same)
              | inr apart ↦ remove-other sc.name n m apart ∙ x
            ])
            | inr (inl y) ↦ inl (remove-here sc.name n m y)
            | inr (inr z) ↦ inr z
          ]))
  ]

-- The index of the listed classes.
existing-IsNamed : (scs : List StorageClass) (m : ClassMap) → IsNamed m → IsNamed (existing scs m)
unfolding existing IsNamed
existing-IsNamed [] m h = h
existing-IsNamed (sc ∷ scs) m h = existing-IsNamed scs (put ◌==◌ sc.name sc m) (λ name x e.
    elim (Bool-cases (sc.name == name)) [
      | inl same ↦
          let mine : find ◌==◌ name (put ◌==◌ sc.name sc m) ≡ some sc =
            find-put ◌==◌ ==_iff sc.name name sc m
            ∙ ap (λ b. if b then some sc else find ◌==◌ name m) same in
          let q : some sc ≡ some x = sym mine ∙ e in ground (arith, q, ==_iff sc.name name, same)
      | inr apart ↦ h name x (
          sym (ap (λ b. if b then some sc else find ◌==◌ name m) apart)
          ∙ (sym (find-put ◌==◌ ==_iff sc.name name sc m) ∙ e))
    ])

existing-listed :
    (scs : List StorageClass) (m : ClassMap) (n : Text)
    → (find ◌==◌ n (existing scs m) ≡ find ◌==◌ n m) ⊎ Any (λ sc. sc.name ≡ n) scs
unfolding existing
existing-listed [] m n = inl refl
existing-listed (sc ∷ scs) m n = elim (Bool-cases (sc.name == n)) [
  | inl same ↦ inr (inl ((==_iff sc.name n).0 same))
  | inr apart ↦ elim (existing-listed scs (put ◌==◌ sc.name sc m) n) [
    | inr h ↦ inr (inr h)
    | inl e ↦ inl (
        e
        ∙ (find-put ◌==◌ ==_iff sc.name n sc m
            ∙ ap (λ b. if b then some sc else find ◌==◌ n m) apart))
  ]
]

-- What the guest has under a name is what is offered under it: the mirror of a class, or nothing.
pub IsMirror : Option StorageClass → Option StorageClass → Type 0
IsMirror none now = now ≡ none
IsMirror (some host) now = Mirrors host now

module _ (lib : Library) (tc : TenantCluster) (w : World) (accepts : Accepts w) where
  -- A name that is not offered ends up with nothing, one that is offered with its mirror.
  finish :
      (scs : List StorageClass) (offered : ClassMap) (n : Text) (o before now : Option StorageClass)
      → find ◌==◌ n offered ≡ o
      → (before ≡ none) ⊎ Any (λ sc. sc.name ≡ n) scs
      → (m : ClassMap) → find ◌==◌ n m ≡ now
      → Agrees (existing scs []) (existing-IsNamed scs [] empty-IsNamed) o before now
      → IsMirror o (find ◌==◌ n (effects (drops offered scs) m))
  unfolding Agrees IsMirror
  finish scs offered n none before now e h m q a =
      drops-other offered scs n m e (elim h [ inl x ↦ inl (q ∙ (a ∙ x)) | inr y ↦ inr y ])
  finish scs offered n (some host) before now e h m q a =
      subst (Mirrors host) (sym (drops-offered offered scs n host m e ∙ q)) a

  mirrored :
      (scs : List StorageClass) (offered : ClassMap) (n : Text)
      → IsKeyed offered
      → IsMirror (find ◌==◌ n offered) (
          find ◌==◌ n
            (effects (all_steps (existing scs []) offered ++ drops offered scs) (existing scs [])))
  unfolding find
  mirrored scs offered n k =
      let there = existing scs [] in
      let named = existing-IsNamed scs [] empty-IsNamed in
      let cs = all_steps there offered in
      let m = effects cs there in
      subst (λ z. IsMirror (find ◌==◌ n offered) (find ◌==◌ n z))
        (sym (effects-append cs (drops offered scs) there))
        (finish scs offered n (find ◌==◌ n offered) (find ◌==◌ n there) (find ◌==◌ n m) refl
          (existing-listed scs [] n) m refl
          (all_steps-Agrees there named offered n there k
            (every (λ x. find ◌==◌ x.0 there ≡ find ◌==◌ x.0 there) (λ x. refl) offered)))

  -- If the servers accept every call and the offered classes are named by their keys, no key twice,
  -- then the calls that a pass issues for StorageClasses leave the guest, of the classes that it
  -- listed as managed, with the mirror of every offered class and with no other class. A mirror has
  -- the host class's name and its mark as default class, the guest's driver, the binding to the
  -- first consumer, the policy to delete, and no parameters. A class that is there is not created
  -- again by a call to create it: one that has drifted is deleted first.
  pub drop_classes-IsMirror :
      (s : Work)
      → IsKeyed s.storage.offerable
      → (added : List Call) × (((drop_classes lib tc w s.storage.guest_scs
              (apply_guest_storage_classes w s)).calls
            ≡ s.calls ++ added)
          × ((n : Text)
              → IsMirror
                  (find ◌==◌ n s.storage.offerable)
                  (find ◌==◌ n (effects added (existing s.storage.guest_scs [])))))
  unfolding apply_guest_storage_classes Issues
  drop_classes-IsMirror s k =
      let there = existing s.storage.guest_scs [] in
      let offered = s.storage.offerable in
      let t = apply_guest_storage_classes w s in
      let (log, same) = apply_classes-steps w accepts there offered s in
      let (rest, kept) = drop_classes-drops w accepts lib tc s.storage.guest_scs t in
      let rest2 = rest ∙ ap (λ st. t.calls ++ drops st.offerable s.storage.guest_scs) same in
      (
        all_steps there offered ++ drops offered s.storage.guest_scs,
        (
          rest2
              ∙ (ap (λ l. l ++ drops offered s.storage.guest_scs) log
                  ∙ append_assoc s.calls (all_steps there offered)
                      (drops offered s.storage.guest_scs)),
          λ n. mirrored s.storage.guest_scs offered n k,
        ),
      )
