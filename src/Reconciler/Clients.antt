-- ===== src/Reconciler/Clients.antt =====
-- Of what the client of a guest is built.
use vcluster_private_cloud_c.Pass.Apply.{have}
use vcluster_private_cloud_c.Prelude.{
  ◌≡◌, inl, inr, refl, sym, subst, ◌∙◌, Option, none, some, List, Text, ◌==◌, ==_iff, find, put,
  find-put, is_empty, Bool-cases, if_cases, option_cases, arith,
}
use vcluster_private_cloud_c.Reconciler.{
  Secret, Cache, kubeconfig_key, data_of, build, cached_or_built, guest_client_for,
}
use vcluster_private_cloud_c.Tenant.{TenantCluster}

-- What a version of a Secret holds, as the API server assigns versions.
abbrev pub History : Type 0
History = Text → List (Text × Text)

module _ {Client : Type 0} (factory : Text → Option Client) (content : History) where
  -- The client was built of an entry of that version of the Secret.
  pub IsBuilt : Text → Client → Type 0
  IsBuilt version c = (key : Text) × (factory (data_of (find ◌==◌ key (content version))) ≡ some c)

  -- Every client in the cache was built of the version that it is kept with.
  pub IsCurrent : Cache Client → Type 0
  IsCurrent cache =
      (uid version : Text) (c : Client)
      → find ◌==◌ uid cache ≡ some (version, c)
      → IsBuilt version c

  pub BuiltIfAny : Text → Option Client → Type 0
  BuiltIfAny version none = Unit
  BuiltIfAny version (some c) = IsBuilt version c

  AtEntry : Option (Text × Client) → Type 0
  AtEntry none = Unit
  AtEntry (some x) = IsBuilt x.0 x.1

  put-IsCurrent :
      (uid version : Text) (c : Client) (cache : Cache Client)
      → IsBuilt version c
      → IsCurrent cache
      → IsCurrent (put ◌==◌ uid (version, c) cache)
  unfolding IsCurrent AtEntry
  put-IsCurrent uid version c cache built h other v d e = elim (Bool-cases (uid == other)) [
    | inl same ↦
        let there : Option (Text × Client) = find ◌==◌ other (put ◌==◌ uid (version, c) cache) in
        let mine : Option (Text × Client) = some (version, c) in
        let q : there ≡ mine =
          ground (arith, find-put ◌==◌ ==_iff uid other (version, c) cache, same) in
        subst AtEntry (sym q ∙ e) built
    | inr differs ↦
        h other v d (ground (arith, find-put ◌==◌ ==_iff uid other (version, c) cache, differs, e))
  ]

  Both : Text → Option Client × Cache Client → Type 0
  Both version r = BuiltIfAny version r.0 × IsCurrent r.1

  build-Both :
      (tc : TenantCluster) (sec : Secret) (key : Text) (cache : Cache Client)
      → sec.data_at ≡ content sec.version
      → IsCurrent cache
      → Both sec.version (build factory tc sec.version (data_of (find ◌==◌ key sec.data_at)) cache)
  unfolding build Both BuiltIfAny IsBuilt
  build-Both tc sec key cache same h =
      option_cases (Both sec.version) (factory (data_of (find ◌==◌ key sec.data_at))) (none, cache)
        _ (λ e. (tt, h))
        (λ c e.
          let built : IsBuilt sec.version c =
            (key, subst (λ l. factory (data_of (find ◌==◌ key l)) ≡ some c) same e) in
          (built, put-IsCurrent tc.uid sec.version c cache built h))

  cached_or_built-Both :
      (tc : TenantCluster) (sec : Secret) (key : Text) (o : Option (Text × Client))
      (cache : Cache Client)
      → find ◌==◌ tc.uid cache ≡ o
      → sec.data_at ≡ content sec.version
      → IsCurrent cache
      → Both sec.version
          (cached_or_built factory tc sec.version (data_of (find ◌==◌ key sec.data_at)) o cache)
  unfolding cached_or_built Both BuiltIfAny IsCurrent
  cached_or_built-Both tc sec key none cache there same h = build-Both tc sec key cache same h
  cached_or_built-Both tc sec key (some (at, c)) cache there same h =
      if_cases (Both sec.version) (at == sec.version) (some c, cache) _
        (λ e. (subst (λ v. IsBuilt v c) ((==_iff at sec.version).0 e) (h tc.uid at c there), h))
        (λ e. build-Both tc sec key cache same h)

  -- If every cached client was built of an entry of the version of the Secret that it is kept
  -- with, and the Secret that is read holds what its version holds, then the client that is
  -- returned was built of an entry of the version that was read, and the cache stays as it has
  -- to be. The entry need not be the one that the TenantCluster names now.
  pub guest_client_for-IsBuilt :
      (tc : TenantCluster) (sec : Secret) (cache : Cache Client)
      → sec.data_at ≡ content sec.version
      → IsCurrent cache
      → BuiltIfAny sec.version (guest_client_for factory tc (have sec) cache).0
        × IsCurrent (guest_client_for factory tc (have sec) cache).1
  unfolding guest_client_for Both BuiltIfAny
  guest_client_for-IsBuilt tc sec cache same h =
      let config = data_of (find ◌==◌ (kubeconfig_key tc) sec.data_at) in
      if_cases (Both sec.version) (is_empty config) (none, cache) _ (λ e. (tt, h))
        (λ e.
          cached_or_built-Both tc sec (kubeconfig_key tc) (find ◌==◌ tc.uid cache) cache refl same
            h)
