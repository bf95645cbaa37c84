-- ===== src/Service/Classes.antt =====
-- Which controller serves a LoadBalancer Service.
use vcluster_private_cloud_c.Prelude.{
  ◌≡◌, inl, inr, refl, true, Option, none, some, [], ◌∷◌, Text, ==_iff, is_empty, arith, Bool-cases,
}
use vcluster_private_cloud_c.Tenant.{TenantCluster}
use vcluster_private_cloud_c.Service.{
  Service, ServiceType, load_balancer, is_load_balancer, wants_load_balancer, class_matches,
}

is_load_balancer-eq : (t : ServiceType) → is_load_balancer t ≡ true → t ≡ load_balancer
is_load_balancer-eq t h = ground arith

is_empty_unique : (a b : Text) → is_empty a ≡ true → is_empty b ≡ true → a ≡ b
is_empty_unique [] [] p q = refl
is_empty_unique [] (d ∷ b) p q = absurd (cc)
is_empty_unique (c ∷ a) b p q = absurd (cc)

class_matches_unique :
    (a b : Text) (class : Option Text)
    → class_matches a class ≡ true
    → class_matches b class ≡ true
    → a ≡ b
unfolding class_matches
class_matches_unique a b none p q = is_empty_unique a b p q
class_matches_unique a b (some c) p q = ground (arith, ==_iff c a, ==_iff c b)

-- Two registrations that both take a LoadBalancer Service name the same class, so syncers with
-- different classes share a guest without touching one another's Services; and a Service of
-- another type is taken by none.
pub wants_load_balancer-partition :
    (a b : TenantCluster) (svc : Service)
    → wants_load_balancer a svc ≡ true
    → wants_load_balancer b svc ≡ true
    → (a.spec.sync.service_load_balancer_class ≡ b.spec.sync.service_load_balancer_class)
      × (svc.svc_type ≡ load_balancer)
unfolding wants_load_balancer
wants_load_balancer-partition a b svc p q = elim (Bool-cases (is_load_balancer svc.svc_type)) [
  | inr other ↦ absurd (ground arith)
  | inl lb ↦ (
    class_matches_unique a.spec.sync.service_load_balancer_class
        b.spec.sync.service_load_balancer_class svc.load_balancer_class (rw lb at p) (rw lb at q),
    is_load_balancer-eq svc.svc_type lb,
  )
]
