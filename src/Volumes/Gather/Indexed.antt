-- ===== src/Volumes/Gather/Indexed.antt =====
-- What holds of the claims that the storage slice has gathered.
use vcluster_private_cloud_c.Go.{Library}
use vcluster_private_cloud_c.KubeVirt.{Vms}
use vcluster_private_cloud_c.Ownership.{guest_finalizer}
use vcluster_private_cloud_c.Pass.Gather.{has_finalizer, note_finalizer_holder, want, ref_of}
use vcluster_private_cloud_c.Pass.Listing.{Listing, items, no_match, list_failed}
use vcluster_private_cloud_c.Pass.Prune.{HostObject}
use vcluster_private_cloud_c.Pass.{volume_claim, Ref, Pass, refuse, same_ref, same_ref_iff}
use vcluster_private_cloud_c.Prelude.{
  ◌≡◌, refl, sym, subst, Bool, true, false, not, Option, none, some, List, [], ◌∷◌, ◌++◌, Text,
  ◌==◌, ==_refl, find, has, All, All-append, All-imp, if_cases, option_cases, arith, if◌then◌else◌,
}
use vcluster_private_cloud_c.Storage.{
  GuestPvc, GuestPv, HostPvc, MappedPvc, mapped, refused, StorageClass, map_pvc,
}
use vcluster_private_cloud_c.Tenant.{TenantCluster, sync_storage}
use vcluster_private_cloud_c.Volumes.{StorageState, VolumeAttachment}
use vcluster_private_cloud_c.Volumes.Gather.{
  out_of_work, GuestListings, HostListings, Gathering, Gathered, answered, provision_later,
  live_claim, gather_claim, gather_claims, with_claims, gather_host, gather_storage,
}

answered-items : {A : Type 0} (l : Listing A) (xs : List A) → answered l ≡ some xs → l ≡ items xs
answered-items (items ys) xs e = ground (arith, e)
answered-items (no_match x) xs e = absurd (ground (arith, e))
answered-items (list_failed x) xs e = absurd (ground (arith, e))

want_more :
    (ref r : Ref) (p : Pass)
    → has same_ref r p.want_finalizer ≡ true
    → has same_ref r (want ref p).want_finalizer ≡ true
unfolding has
want_more ref r p e = ground (arith, e)

want_self : (ref : Ref) (p : Pass) → has same_ref ref (want ref p).want_finalizer ≡ true
unfolding has
want_self ref p = ground (arith, same_ref_iff ref ref)

module _ (lib : Library) (tc : TenantCluster) where
  -- A claim that is to be provisioned: it is not being deleted, its class is offered, it can be
  -- mapped, and its finalizer is wanted.
  pub IsReady : Pass → StorageState → GuestPvc → Type 0
  IsReady p st pvc =
      (pvc.meta.deleting ≡ false)
      × ((has same_ref (ref_of volume_claim pvc.meta) p.want_finalizer ≡ true)
          × ((class_name : Text) × ((pvc.storage_class_name ≡ some class_name)
                × (((sc : StorageClass) × (find ◌==◌ class_name st.offerable ≡ some sc))
                    × ((host : HostPvc) × (map_pvc lib tc pvc class_name ≡ mapped host))))))

  -- A claim that is to be torn down.
  abbrev pub IsLeaving : GuestPvc → Type 0
  IsLeaving pvc =
      (pvc.meta.deleting ≡ true) × (has_finalizer guest_finalizer pvc.meta.finalizers ≡ true)

  -- What holds when the claims `seen` have been gathered.
  pub record Indexed (seen : List GuestPvc) (g : Gathering) : Type 0 where
    pub uids : All (λ pvc. has ◌==◌ pvc.meta.uid g.1.pvc_uids ≡ true) seen
    pub provisionable : All (IsReady g.0 g.1) g.1.provisionable
    pub deleting : All IsLeaving g.1.deleting

  -- The storage state with one more identifier, and a pass that wants no fewer finalizers.
  module _ (seen : List GuestPvc) (pvc : GuestPvc) (p : Pass) (st : StorageState)
      (h : Indexed seen (p, st)) where
    abbrev seen_state : StorageState
    seen_state = record st { pvc_uids = pvc.meta.uid ∷ st.pvc_uids }

    more_uids : All (λ x. has ◌==◌ x.meta.uid seen_state.pvc_uids ≡ true) (pvc ∷ seen)
    unfolding has
    more_uids =
        (ground (arith, ==_refl pvc.meta.uid), All-imp (λ x k. ground (arith, k)) seen h.uids)

    still-IsReady :
        (q : Pass)
        → ((r : Ref)
            → has same_ref r p.want_finalizer ≡ true
            → has same_ref r q.want_finalizer ≡ true)
        → All (IsReady q seen_state) st.provisionable
    unfolding IsReady
    still-IsReady q k =
        All-imp (λ x (d, (wanted, rest)). (d, (k (ref_of volume_claim x.meta) wanted, rest)))
          st.provisionable h.provisionable

    plain :
        (q : Pass)
        → ((r : Ref)
            → has same_ref r p.want_finalizer ≡ true
            → has same_ref r q.want_finalizer ≡ true)
        → Indexed (pvc ∷ seen) (q, seen_state)
    plain q k = record {
      uids = more_uids;
      provisionable = still-IsReady q k;
      deleting = h.deleting;
    }

    noted-want :
        (r : Ref)
        → has same_ref r p.want_finalizer ≡ true
        → has same_ref r
            (note_finalizer_holder pvc.meta (ref_of volume_claim pvc.meta) p).want_finalizer
          ≡ true
    unfolding note_finalizer_holder
    noted-want r e =
        if_cases (λ (q : Pass). has same_ref r q.want_finalizer ≡ true)
          (has_finalizer guest_finalizer pvc.meta.finalizers) _ p (λ x. e) (λ x. e)

    provision_later-Indexed :
        (q : Pass) (class_name : Text) (m : MappedPvc)
        → ((r : Ref)
            → has same_ref r p.want_finalizer ≡ true
            → has same_ref r q.want_finalizer ≡ true)
        → pvc.meta.deleting ≡ false
        → pvc.storage_class_name ≡ some class_name
        → ((sc : StorageClass) × (find ◌==◌ class_name st.offerable ≡ some sc))
        → map_pvc lib tc pvc class_name ≡ m
        → Indexed
            (pvc ∷ seen)
            (provision_later (ref_of volume_claim pvc.meta) pvc m (q, seen_state))
    unfolding provision_later refuse IsReady
    provision_later-Indexed q class_name (refused r) k live named offered e = plain _ k
    provision_later-Indexed q class_name (mapped host) k live named offered e =
        let ref = ref_of volume_claim pvc.meta in
        let grown = plain (want ref q) (λ r x. want_more ref r q (k r x)) in
        record {
          uids = more_uids;
          provisionable =
              All-append (IsReady (want ref q) seen_state) st.provisionable (pvc ∷ [])
                grown.provisionable
                ((live, (want_self ref q, (class_name, (named, (offered, (host, e)))))), tt);
          deleting = h.deleting;
        }

    live_claim-Indexed :
        (o : Option Text)
        → pvc.meta.deleting ≡ false
        → pvc.storage_class_name ≡ o
        → Indexed (pvc ∷ seen) (
            live_claim lib tc
              (ref_of volume_claim pvc.meta)
              pvc
              o
              (note_finalizer_holder pvc.meta (ref_of volume_claim pvc.meta) p, seen_state))
    unfolding live_claim
    live_claim-Indexed none live e = plain _ noted-want
    live_claim-Indexed (some class_name) live e =
        option_cases (Indexed (pvc ∷ seen)) (find ◌==◌ class_name st.offerable) _ _
          (λ q. plain _ noted-want)
          (λ sc q.
            provision_later-Indexed _ class_name (map_pvc lib tc pvc class_name) noted-want live e
              (sc, q) refl)

    gather_claim-Indexed : Indexed (pvc ∷ seen) (gather_claim lib tc pvc (p, st))
    unfolding gather_claim IsReady
    gather_claim-Indexed =
        let ours = has_finalizer guest_finalizer pvc.meta.finalizers in
        let leaves : StorageState = record seen_state { deleting = st.deleting ++ pvc ∷ [] } in
        let noted = note_finalizer_holder pvc.meta (ref_of volume_claim pvc.meta) p in
        if_cases (Indexed (pvc ∷ seen)) pvc.meta.deleting
          (noted, (if ours then leaves else seen_state)) _
          (λ d.
            if_cases (λ x. Indexed (pvc ∷ seen) (noted, x)) ours leaves seen_state
              (λ f. record {
                uids = more_uids;
                provisionable = still-IsReady noted noted-want;
                deleting = All-append IsLeaving st.deleting (pvc ∷ []) h.deleting ((d, f), tt);
              })
              (λ f. plain noted noted-want))
          (λ d. live_claim-Indexed pvc.storage_class_name d refl)

  gather_claims-Indexed :
      (pvcs seen : List GuestPvc) (g : Gathering)
      → Indexed seen g
      → All (λ pvc. has ◌==◌ pvc.meta.uid (gather_claims lib tc pvcs g).1.pvc_uids ≡ true) pvcs
        × Indexed seen (gather_claims lib tc pvcs g)
  unfolding gather_claims
  gather_claims-Indexed [] seen g h = (tt, h)
  gather_claims-Indexed (pvc ∷ pvcs) seen (p, st) h =
      let (others, all) =
        gather_claims-Indexed pvcs (pvc ∷ seen) (gather_claim lib tc pvc (p, st))
          (gather_claim-Indexed seen pvc p st h) in
      (
        (all.uids.0, others),
        record { uids = all.uids.1; provisionable = all.provisionable; deleting = all.deleting },
      )

  -- What holds of a pass with its storage slice; one without has nothing to hold.
  Sound : Listing GuestPvc → Gathered → Type 0
  Sound listing (q, none) = Unit
  Sound listing (q, some st) =
      (pvcs : List GuestPvc) × ((listing ≡ items pvcs)
        × (All (λ pvc. has ◌==◌ pvc.meta.uid st.pvc_uids ≡ true) pvcs
            × (All (IsReady q st) st.provisionable × All IsLeaving st.deleting)))

  gather_host-Sound :
      (pvcs : List GuestPvc) (pvs : List GuestPv) (scs : List StorageClass)
      (vas : List VolumeAttachment) (host : HostListings) (p : Pass)
      → Sound (items pvcs) (gather_host lib tc pvcs pvs scs vas host p)
  unfolding gather_host with_claims out_of_work Sound IsReady
  gather_host-Sound pvcs pvs scs vas host p = from host.classes host.claims host.machines
    where
      from :
          (c : Listing StorageClass) (l : Listing HostObject) (m : Option Vms)
          → Sound (items pvcs) (
              gather_host lib tc pvcs pvs scs vas
                (record { classes = c; claims = l; machines = m })
                p)
      from (no_match e) l m = tt
      from (list_failed e) l m = tt
      from (items cs) (no_match e) m = tt
      from (items cs) (list_failed e) m = tt
      from (items cs) (items claims) none = tt
      from (items cs) (items claims) (some vms) =
          let (uids, all) =
            gather_claims-Indexed pvcs [] _
              (record { uids = tt; provisionable = tt; deleting = tt }) in
          (pvcs, (refl, (uids, (all.provisionable, all.deleting))))

  pub SoundIfAny : Listing GuestPvc → Option Gathered → Type 0
  SoundIfAny listing none = Unit
  SoundIfAny listing (some g) = Sound listing g

  -- When a pass goes on with a storage slice, every claim that the guest lists is in the slice's
  -- index of identifiers; every claim that it will provision is not being deleted, names a class
  -- that the host offers, can be mapped, and has its finalizer wanted; and every claim that it
  -- will tear down is being deleted and carries the finalizer.
  pub gather_storage-Sound :
      (hot : Bool) (guest : GuestListings) (host : HostListings) (p : Pass)
      → SoundIfAny guest.pvcs (gather_storage lib tc hot guest host p)
  unfolding gather_storage SoundIfAny Sound
  gather_storage-Sound hot guest host p =
      let P : Option Gathered → Type 0 = SoundIfAny guest.pvcs in
      if_cases P (not (sync_storage tc)) (some (p, none)) _ (λ e. tt)
        (λ e.
          if_cases P (not hot) (some (_, none)) _ (λ e. tt)
            (λ e.
              option_cases P (answered guest.pvcs) none _ (λ e. tt)
                (λ pvcs listed.
                  option_cases P (answered guest.pvs) none _ (λ e. tt)
                    (λ pvs e.
                      option_cases P (answered guest.scs) none _ (λ e. tt)
                        (λ scs e.
                          option_cases P (answered guest.vas) none _ (λ e. tt)
                            (λ vas e.
                              let found = gather_host lib tc pvcs pvs scs vas host p in
                              subst (λ l. Sound l found)
                                (sym (answered-items guest.pvcs pvcs listed))
                                (gather_host-Sound pvcs pvs scs vas host p)))))))
