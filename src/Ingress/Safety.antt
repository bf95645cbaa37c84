-- ===== src/Ingress/Safety.antt =====
-- A host Ingress serves only authorized names, and routes only to backends that the host reaches.
use vcluster_private_cloud_c.Hostname
use vcluster_private_cloud_c.Prelude.{
  Any-append_left, All-append, Any-append_right, ◌++◌, arith, Bool-cases, ◌≡◌, ◌≢◌, inl, inr, refl,
  Option, none, some, List, [], ◌∷◌, Text, All, All-imp, Member, Option-cases,
}
use vcluster_private_cloud_c.Gathered.{Gathered}
use vcluster_private_cloud_c.Go.{Library}
use vcluster_private_cloud_c.Hostname.Grants.{allowed_iff, Authorized}
use vcluster_private_cloud_c.Meta.{ObjectMeta}
use vcluster_private_cloud_c.Ownership.{host_object_name}
use vcluster_private_cloud_c.Service.Mapping.{Unresolved}
use vcluster_private_cloud_c.Tenant.{TenantCluster}
use vcluster_private_cloud_c.Ingress.{
  Refusal, true, is_empty, tls_hosts, map_rules, with_rule, map_tls, ServiceBackend, IngressPath,
  IngressRule, IngressTls, host_path, map_service_path, map_paths,
}

abbrev pub paths_of : Option (List IngressPath) → List IngressPath
paths_of none = []
paths_of (some paths) = paths

module _ (lib : Library) (tc : TenantCluster) (guest : ObjectMeta)
    (resolve : Text → Option Unresolved) where
  -- The path leads to the host object of a guest Service that the host can reach, and for which a
  -- host Service is asked (`Asked`).
  abbrev pub PathIsSafe : (Text → Type 0) → IngressPath → Type 0
  PathIsSafe Asked p =
      (b : ServiceBackend) × (n : Text) × (p.service ≡ some b)
      × (b.name ≡ host_object_name lib tc.name guest.namespace n)
      × (resolve n ≡ none)
      × Asked n

  abbrev pub HostIsSafe : Text → Type 0
  HostIsSafe h = Authorized lib.unicode h tc.spec.allowed_domains

  abbrev pub RuleIsSafe : (Text → Type 0) → IngressRule → Type 0
  RuleIsSafe Asked r =
      HostIsSafe r.host × (paths_of r.http ≢ []) × All (PathIsSafe Asked) (paths_of r.http)

  -- No name of a certificate's Secret crosses.
  abbrev pub TlsIsSafe : IngressTls → Type 0
  TlsIsSafe t = All HostIsSafe t.hosts × (t.hosts ≢ []) × (t.secret_name ≡ [])

  PathIsSafe-imp :
      (P Q : Text → Type 0) (f : (n : Text) → P n → Q n) (p : IngressPath)
      → PathIsSafe P p
      → PathIsSafe Q p
  PathIsSafe-imp P Q f p (b, n, e, q, r, a) = (b, n, e, q, r, f n a)

  pub RuleIsSafe-imp :
      (P Q : Text → Type 0) (f : (n : Text) → P n → Q n) (r : IngressRule)
      → RuleIsSafe P r
      → RuleIsSafe Q r
  RuleIsSafe-imp P Q f r (h, k, a) = (h, k, All-imp (PathIsSafe-imp P Q f) (paths_of r.http) a)

  abbrev Resolves : Text → Type 0
  Resolves n = resolve n ≡ none

  -- What is kept is safe, given what is asked for; and all that is asked for can be reached.
  abbrev PathsAreSafe : Gathered Refusal IngressPath → Type 0
  PathsAreSafe g = All (PathIsSafe (λ n. Member n g.backends)) g.kept × All Resolves g.backends

  abbrev pub RulesAreSafe : Gathered Refusal IngressRule → Type 0
  RulesAreSafe g = All (RuleIsSafe (λ n. Member n g.backends)) g.kept × All Resolves g.backends

  map_service_path-safe :
      (host : Text) (path : IngressPath) (b : ServiceBackend) (rest : Gathered Refusal IngressPath)
      → PathsAreSafe rest
      → PathsAreSafe (map_service_path lib tc guest resolve host path b rest)
  unfolding map_service_path host_path
  map_service_path-safe host path b rest (k, r) = elim (Option-cases (resolve b.name)) [
    | inr (msg, e) ↦ rw (e, map_service_path) (k, r)
    | inl e ↦
        rw (e, map_service_path)
          (
            (
              (
                record b { name = host_object_name lib tc.name guest.namespace b.name },
                b.name,
                refl,
                refl,
                e,
                inl refl,
              ),
              All-imp
                  (PathIsSafe-imp (λ n. Member n rest.backends)
                    (λ n. Member n (b.name ∷ rest.backends)) (λ n m. inr m))
                  rest.kept k,
            ),
            (e, r),
          )
  ]

  map_paths-safe :
      (host : Text) (paths : List IngressPath)
      → PathsAreSafe (map_paths lib tc guest resolve host paths)
  unfolding map_paths
  map_paths-safe host [] = (tt, tt)
  map_paths-safe host (path ∷ paths) = elim (Option-cases path.service) [
    | inl e ↦ rw (e, map_paths) (map_paths-safe host paths)
    | inr (b, e) ↦
        rw (e, map_paths)
          (map_service_path-safe host path b (map_paths lib tc guest resolve host paths)
            (map_paths-safe host paths))
  ]

  with_rule-safe :
      (host : Text) (paths : Gathered Refusal IngressPath) (rest : Gathered Refusal IngressRule)
      → HostIsSafe host
      → PathsAreSafe paths
      → RulesAreSafe rest
      → RulesAreSafe (with_rule lib tc guest resolve host paths rest)
  unfolding with_rule
  with_rule-safe host paths rest h (k, r) (k', r') = elim (Bool-cases (is_empty paths.kept)) [
    | inl none_kept ↦ rw none_kept (later, All-append Resolves paths.backends rest.backends r r')
    | inr some_kept ↦ rw some_kept (
      (
        (
          h,
          λ blank. ground arith,
          All-imp
              (PathIsSafe-imp (λ n. Member n paths.backends)
                (λ n. Member n (paths.backends ++ rest.backends))
                (λ n. Any-append_left (λ x. x ≡ n) paths.backends rest.backends))
              paths.kept k,
        ),
        later,
      ),
      All-append Resolves paths.backends rest.backends r r',
    )
  ]
    where
      later : All (RuleIsSafe (λ n. Member n (paths.backends ++ rest.backends))) rest.kept
      later =
          All-imp
            (RuleIsSafe-imp (λ n. Member n rest.backends)
              (λ n. Member n (paths.backends ++ rest.backends))
              (λ n. Any-append_right (λ x. x ≡ n) paths.backends rest.backends))
            rest.kept k'

  HostIsSafe-allowed :
      (h : Text) → Hostname.allowed lib.unicode h tc.spec.allowed_domains ≡ true → HostIsSafe h
  HostIsSafe-allowed h = (allowed_iff lib.unicode h tc.spec.allowed_domains).0

  pub map_rules-safe :
      (rules : List IngressRule) → RulesAreSafe (map_rules lib tc guest resolve rules)
  unfolding map_rules
  map_rules-safe [] = (tt, tt)
  map_rules-safe (rule ∷ rules) =
      elim (Bool-cases (Hostname.allowed lib.unicode rule.host tc.spec.allowed_domains)) [
        | inr refused ↦ rw (refused, map_rules) (map_rules-safe rules)
        | inl fine ↦ elim (Option-cases rule.http) [
          | inl e ↦ rw (fine, e, map_rules) (map_rules-safe rules)
          | inr (paths, e) ↦
              rw (fine, e, map_rules)
                (with_rule-safe rule.host (map_paths lib tc guest resolve rule.host paths)
                  (map_rules lib tc guest resolve rules) (HostIsSafe-allowed rule.host fine)
                  (map_paths-safe rule.host paths) (map_rules-safe rules))
        ]
      ]

  tls_hosts-safe : (hosts : List Text) → All HostIsSafe (tls_hosts lib tc guest resolve hosts).kept
  unfolding tls_hosts
  tls_hosts-safe [] = tt
  tls_hosts-safe (h ∷ hosts) =
      elim (Bool-cases (Hostname.allowed lib.unicode h tc.spec.allowed_domains)) [
        | inr refused ↦ rw (refused, tls_hosts) (tls_hosts-safe hosts)
        | inl fine ↦ rw (fine, tls_hosts) (HostIsSafe-allowed h fine, tls_hosts-safe hosts)
      ]

  pub map_tls-safe : (tls : List IngressTls) → All TlsIsSafe (map_tls lib tc guest resolve tls).kept
  unfolding map_tls
  map_tls-safe [] = tt
  map_tls-safe (t ∷ tls) =
      elim (Bool-cases (is_empty (tls_hosts lib tc guest resolve t.hosts).kept)) [
        | inl none_kept ↦ rw none_kept (map_tls-safe tls)
        | inr some_kept ↦
            rw some_kept ((tls_hosts-safe t.hosts, (λ blank. ground arith), refl), map_tls-safe tls)
      ]
