-- ===== src/Ingress/Result.antt =====
-- The whole host Ingress, and the backends that it asks for.
use vcluster_private_cloud_c.Ingress.Safety.{
  map_tls-safe, RuleIsSafe-imp, RulesAreSafe, map_rules-safe, TlsIsSafe, RuleIsSafe,
}
use vcluster_private_cloud_c.Prelude.{
  if◌then◌else◌, Member-sorted_names, sorted_names-Ascending, Ascending, subst, arith, Bool-cases,
  ◌≡◌, ◌≢◌, inl, inr, refl, Option, none, some, List, [], ◌∷◌, Text, All, All-imp, Member,
}
use vcluster_private_cloud_c.Gathered.{Gathered}
use vcluster_private_cloud_c.Go.{Library}
use vcluster_private_cloud_c.Meta.{ObjectMeta}
use vcluster_private_cloud_c.Ownership.{host_object_name}
use vcluster_private_cloud_c.Service.Mapping.{Unresolved}
use vcluster_private_cloud_c.Tenant.{TenantCluster}
use vcluster_private_cloud_c.Ingress.{
  default_backend, sorted_names, ownership_labels, Refusal, new_host_ingress, HostIngress, Ingress,
  IngressResult, map_ingress, finish, is_empty, map_rules, map_tls, IngressRule, IngressTls,
}

-- Every name that the host Ingress serves is authorized, every path leads to a guest Service that
-- the host reaches and for which a host Service is asked, no Secret is named, and the class and the
-- ownership labels are the operator's.
pub record HostIngressIsSafe (lib : Library) (tc : TenantCluster) (guest : ObjectMeta)
    (resolve : Text → Option Unresolved) (r : IngressResult) (h : HostIngress) : Type 0 where
  pub rules : All (RuleIsSafe lib tc guest resolve (λ n. Member n r.backends)) h.rules
  pub some_rule : h.rules ≢ []
  pub tls : All (TlsIsSafe lib tc guest resolve) h.tls
  pub name : h.name ≡ host_object_name lib tc.name guest.namespace guest.name
  pub namespace : h.namespace ≡ tc.spec.host_namespace
  pub labels : h.labels ≡ ownership_labels tc guest
  pub class :
      h.ingress_class_name
      ≡ (if is_empty tc.spec.ingress_class_name then none else some tc.spec.ingress_class_name)

module _ (lib : Library) (tc : TenantCluster) (guest : ObjectMeta)
    (resolve : Text → Option Unresolved) where
  finish-safe :
      (first : List Refusal) (rules : Gathered Refusal IngressRule) (tls : List IngressTls)
      (h : HostIngress)
      → RulesAreSafe lib tc guest resolve rules
      → (finish lib tc guest resolve first rules tls).host ≡ some h
      → HostIngressIsSafe lib tc guest resolve (finish lib tc guest resolve first rules tls) h
  unfolding finish new_host_ingress
  finish-safe first rules tls h (k, r) e = elim (Bool-cases (is_empty rules.kept)) [
    | inl none_kept ↦ absurd (ground arith)
    | inr some_kept ↦
        let made : record (new_host_ingress lib tc guest) {
          rules = rules.kept;
          tls = (map_tls lib tc guest resolve tls).kept;
        }
            ≡ h =
          ground arith in
        rw (some_kept, ← made)
          (record {
            rules =
                All-imp
                  (RuleIsSafe-imp lib tc guest resolve (λ n. Member n rules.backends)
                    (λ n. Member n (sorted_names rules.backends))
                    (λ n. (Member-sorted_names n rules.backends).1))
                  rules.kept k;
            some_rule = λ blank. ground arith;
            tls = map_tls-safe lib tc guest resolve tls;
            name = refl;
            namespace = refl;
            labels = refl;
            class = refl;
          })
  ]

pub all-member : (P : Text → Type 0) (n : Text) (xs : List Text) → All P xs → Member n xs → P n
all-member P n [] h m = absurd m
all-member P n (x ∷ xs) (p, h) (inl e) = subst P e p
all-member P n (x ∷ xs) (p, h) (inr m) = all-member P n xs h m

-- Whatever a guest writes into an Ingress, the host Ingress made of it is safe, as
-- `HostIngressIsSafe` says.
pub map_ingress-safe :
    (lib : Library) (tc : TenantCluster) (guest : Ingress) (resolve : Text → Option Unresolved)
    (h : HostIngress)
    → (map_ingress lib tc guest resolve).host ≡ some h
    → HostIngressIsSafe lib tc guest.meta resolve (map_ingress lib tc guest resolve) h
unfolding map_ingress
map_ingress-safe lib tc guest resolve h e =
    finish-safe lib tc guest.meta resolve
      (if guest.has_default_backend then default_backend ∷ [] else [])
      (map_rules lib tc guest.meta resolve guest.rules) guest.tls h
      (map_rules-safe lib tc guest.meta resolve guest.rules) e

-- The backends that an Ingress asks for stand in ascending order, each once, and the host can
-- reach every one of them.
pub map_ingress-backends :
    (lib : Library) (tc : TenantCluster) (guest : Ingress) (resolve : Text → Option Unresolved)
    → Ascending (map_ingress lib tc guest resolve).backends
      × ((n : Text) → Member n (map_ingress lib tc guest resolve).backends → resolve n ≡ none)
unfolding map_ingress finish
map_ingress-backends lib tc guest resolve =
    let rules = map_rules lib tc guest.meta resolve guest.rules in
    let reached = (map_rules-safe lib tc guest.meta resolve guest.rules).1 in
    let sorted = sorted_names-Ascending rules.backends in
    let each : (n : Text) → Member n (sorted_names rules.backends) → resolve n ≡ none = λ n m.
      all-member (λ x. resolve x ≡ none) n rules.backends reached
        ((Member-sorted_names n rules.backends).0 m) in
    elim (Bool-cases (is_empty rules.kept)) [
      | inl e ↦ rw e (sorted, each)
      | inr e ↦ rw e (sorted, each)
    ]
