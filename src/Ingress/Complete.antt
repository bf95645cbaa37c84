-- ===== src/Ingress/Complete.antt =====
-- Nothing of an Ingress is dropped in silence.
use vcluster_private_cloud_c.Prelude.{
  ◌≡◌, inl, inr, refl, false, Option, none, some, List, [], ◌∷◌, ◌++◌, map, Text, is_empty, arith,
  Bool-cases, Option-cases, if◌then◌else◌,
}
use vcluster_private_cloud_c.Go.{Library}
use vcluster_private_cloud_c.Hostname
use vcluster_private_cloud_c.Meta.{ObjectMeta}
use vcluster_private_cloud_c.Ownership.{host_object_name, ownership_labels}
use vcluster_private_cloud_c.Service.Mapping.{Unresolved}
use vcluster_private_cloud_c.Tenant.{TenantCluster}
use vcluster_private_cloud_c.Ingress.{
  IngressPath, IngressRule, IngressTls, Ingress, HostIngress, Refusal, default_backend,
  new_host_ingress, host_path, map_service_path, map_paths, with_rule, map_rules, tls_hosts,
  map_tls, finish, map_ingress,
}
use vcluster_private_cloud_c.Ingress.Safety.{paths_of}

module _ (lib : Library) (tc : TenantCluster) (guest : ObjectMeta)
    (resolve : Text → Option Unresolved) where
  -- The path as the guest wrote it, with its backend under the host's name.
  abbrev pub renamed : IngressPath → IngressPath
  renamed p = elim p.service [
    | none ↦ p
    | some b ↦ record p {
      service = some (record b { name = host_object_name lib tc.name guest.namespace b.name });
    }
  ]

  -- The rules that have paths, all of their paths, and the TLS sections that have hosts.
  abbrev pub served : List IngressRule → List IngressRule
  served [] = []
  served (r ∷ rules) =
      if is_empty (paths_of r.http)
      then served rules
      else record { host = r.host; http = some (map renamed (paths_of r.http)) } ∷ served rules

  abbrev pub served_tls : List IngressTls → List IngressTls
  served_tls [] = []
  served_tls (t ∷ tls) =
      if is_empty t.hosts
      then served_tls tls
      else record { hosts = t.hosts; secret_name = [] } ∷ served_tls tls

  map_paths_complete :
      (host : Text) (paths : List IngressPath)
      → (map_paths lib tc guest resolve host paths).refusals ≡ []
      → (map_paths lib tc guest resolve host paths).kept ≡ map renamed paths
  unfolding map_paths map_service_path host_path
  map_paths_complete host [] e = refl
  map_paths_complete host (path ∷ paths) e = ground (arith, map_paths_complete host paths)

  append-eq-nil : (xs ys : List Refusal) → xs ++ ys ≡ [] → (xs ≡ []) × (ys ≡ [])
  append-eq-nil [] ys e = (refl, e)
  append-eq-nil (x ∷ xs) ys e = absurd (cc)

  is_empty-map : (paths : List IngressPath) → is_empty (map renamed paths) ≡ is_empty paths
  is_empty-map [] = refl
  is_empty-map (p ∷ paths) = refl

  map_rules_complete :
      (rules : List IngressRule)
      → (map_rules lib tc guest resolve rules).refusals ≡ []
      → (map_rules lib tc guest resolve rules).kept ≡ served rules
  unfolding map_rules with_rule
  map_rules_complete [] e = refl
  map_rules_complete (rule ∷ rules) e =
      elim (Bool-cases (Hostname.allowed lib.unicode rule.host tc.spec.allowed_domains)) [
        | inr refused ↦ absurd (ground arith)
        | inl fine ↦ elim (Option-cases rule.http) [
          | inl h ↦
              rw (fine, h, map_rules) (map_rules_complete rules (rw (fine, h, map_rules) at e))
          | inr (paths, h) ↦
              let (first, rest) =
                append-eq-nil (map_paths lib tc guest resolve rule.host paths).refusals
                  (map_rules lib tc guest resolve rules).refusals (rw (fine, h, map_rules) at e) in
              rw (
                fine,
                h,
                map_rules,
                map_paths_complete rule.host paths first,
                is_empty-map paths,
                map_rules_complete rules rest,
              )
        ]
      ]

  tls_hosts_complete :
      (hosts : List Text)
      → (tls_hosts lib tc guest resolve hosts).refusals ≡ []
      → (tls_hosts lib tc guest resolve hosts).kept ≡ hosts
  unfolding tls_hosts
  tls_hosts_complete [] e = refl
  tls_hosts_complete (h ∷ hosts) e = ground (arith, tls_hosts_complete hosts)

  map_tls_complete :
      (tls : List IngressTls)
      → (map_tls lib tc guest resolve tls).refusals ≡ []
      → (map_tls lib tc guest resolve tls).kept ≡ served_tls tls
  unfolding map_tls
  map_tls_complete [] e = refl
  map_tls_complete (t ∷ tls) e =
      let (first, rest) =
        append-eq-nil (tls_hosts lib tc guest resolve t.hosts).refusals
          (map_tls lib tc guest resolve tls).refusals e in
      rw (tls_hosts_complete t.hosts first, map_tls_complete tls rest)

  -- The guest's Ingress as a whole, under the host's names.
  abbrev pub translated : Ingress → HostIngress
  translated ing = record {
    name = host_object_name lib tc.name guest.namespace guest.name;
    namespace = tc.spec.host_namespace;
    labels = ownership_labels tc guest;
    ingress_class_name =
        if is_empty tc.spec.ingress_class_name then none else some tc.spec.ingress_class_name;
    rules = served ing.rules;
    tls = served_tls ing.tls;
  }

-- If an Ingress comes back without a refusal, nothing of it was left out: it has no default
-- backend, and the host Ingress has each of its rules with all their paths and each TLS section
-- with all its hosts, those aside that are empty. Where no rule has a path there is no host
-- Ingress.
pub map_ingress_complete :
    (lib : Library) (tc : TenantCluster) (guest : Ingress) (resolve : Text → Option Unresolved)
    → (map_ingress lib tc guest resolve).refusals ≡ []
    → (guest.has_default_backend ≡ false)
      × ((map_ingress lib tc guest resolve).host ≡ (
          if is_empty (served lib tc guest.meta resolve guest.rules)
          then none
          else some (translated lib tc guest.meta resolve guest)))
unfolding map_ingress finish new_host_ingress
map_ingress_complete lib tc guest resolve e =
    let rules = map_rules lib tc guest.meta resolve guest.rules in
    let certs = map_tls lib tc guest.meta resolve guest.tls in
    let first = if guest.has_default_backend then default_backend ∷ [] else [] in
    elim (Bool-cases (is_empty rules.kept)) [
      | inl none_kept ↦
          let (plain, fine) =
            append-eq-nil lib tc guest.meta resolve first rules.refusals (rw none_kept at e) in
          (
            ground arith,
            rw
                (
                  none_kept,
                  ← map_rules_complete lib tc guest.meta resolve guest.rules fine,
                  none_kept,
                )
                refl,
          )
      | inr some_kept ↦
          let (plain, rest) =
            append-eq-nil lib tc guest.meta resolve first (rules.refusals ++ certs.refusals)
              (rw some_kept at e) in
          let (fine, sealed) =
            append-eq-nil lib tc guest.meta resolve rules.refusals certs.refusals rest in
          (
            ground arith,
            rw
                (
                  some_kept,
                  ← map_rules_complete lib tc guest.meta resolve guest.rules fine,
                  some_kept,
                  map_tls_complete lib tc guest.meta resolve guest.tls sealed,
                )
                refl,
          )
    ]
