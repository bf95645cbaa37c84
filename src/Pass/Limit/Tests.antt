-- ===== src/Pass/Limit/Tests.antt =====
-- The address limit at concrete values.
use mathlib.Core.List.{Permᴰ}
use vcluster_private_cloud_c.Pass.Limit.{
  before, Claim, sort_claims, claims_of, admit, marked, HostReader, found, missing,
  host_object_exists, apply_address_limit,
}
use vcluster_private_cloud_c.Pass.Limit.Sorted.{sort_claims_unique}
use vcluster_private_cloud_c.Pass.Limit.Order.{IsSorted, UidsAreUnique}
use vcluster_private_cloud_c.Pass.Limit.Admission.{number_existing, admit-overtakes}
use vcluster_private_cloud_c.Pass.Limit.Kept.{
  apply_address_limit-keeps, apply_address_limit-bounded,
}
use vcluster_private_cloud_c.Pass.Refs.{service, Pass, new_pass}
use vcluster_private_cloud_c.Prelude.{
  Bool, ℕ, suc, ◌+◌, ◌≤◌, ◌≡◌, refl, sym, ◌∙◌, true, false, List, [], ◌∷◌, map, codes, ◌==◌, find,
  length, arith, Any, inl, inr, String,
}
use vcluster_private_cloud_c.Samples.{lib, tenant, web_service}
use vcluster_private_cloud_c.Ownership.{ownership_labels, owned_by}
use vcluster_private_cloud_c.Service.{load_balancer}
use vcluster_private_cloud_c.Service.Mapping.{host_service}
use vcluster_private_cloud_c.Tenant.{load_balancer_limit}

abbrev claim : String → String → ℕ → Claim
claim name uid created = record {
  ref = record { kind = service; key = record { namespace = codes "default"; name = codes name } };
  host_name = codes name;
  created = created;
  uid = codes uid;
}

abbrev older : Claim
older = claim "a" "u-1" 1

abbrev newer : Claim
newer = claim "b" "u-2" 2

clash : (a b : Claim) → older ≡ a → newer ≡ b → a.uid ≡ b.uid → a ≡ b
clash a b p q same = absurd (ground (arith, p, q, same))

distinct : UidsAreUnique (older ∷ newer ∷ [])
distinct a b (inl p) (inl q) same = sym p ∙ q
distinct a b (inl p) (inr (inl q)) same = clash a b p q same
distinct a b (inr (inl p)) (inl q) same = sym (clash b a q p (sym same))
distinct a b (inr (inl p)) (inr (inl q)) same = sym p ∙ q
distinct a b (inr (inr m)) k same = absurd m
distinct a b (inl p) (inr (inr m)) same = absurd m
distinct a b (inr (inl p)) (inr (inr m)) same = absurd m

-- An older claim that does not exist yet, before one that does: with a limit of one, there are two.
admit-overtakes_example :
    admit 1 0 ((older, false) ∷ map (λ c. (c, true)) (newer ∷ [])) ≡ (suc (length (newer ∷ [])), [])
admit-overtakes_example = admit-overtakes 1 older (newer ∷ []) (omega arith)

abbrev two : List (Claim × Bool)
two = (older, false) ∷ (newer, false) ∷ []

-- A host that holds one of our LoadBalancers under every name.
abbrev full_host : HostReader
full_host = record {
  service_at = λ name. found (ownership_labels tenant web_service.meta, load_balancer);
  gateway_at = λ name. missing;
}

abbrev web_pass : Pass
web_pass = record new_pass {
  services = (codes "h", host_service lib tenant web_service load_balancer []) ∷ [];
  lb_pairs = record { guest = web_service.meta; host_name = codes "h" } ∷ [];
  guest_svcs = (record { namespace = codes "default"; name = codes "web" }, web_service) ∷ [];
  backend_needed = codes "h" ∷ [];
}

apply_address_limit-keeps_example :
    (find ◌==◌ (codes "h") (apply_address_limit lib tenant full_host true [] web_pass).services
      ≡ find ◌==◌ (codes "h") web_pass.services)
    × (find ◌==◌ (codes "h") (apply_address_limit lib tenant full_host true [] web_pass).gateways
        ≡ find ◌==◌ (codes "h") web_pass.gateways)
unfolding claims_of host_object_exists owned_by ownership_labels ◌==◌
apply_address_limit-keeps_example =
    apply_address_limit-keeps lib tenant [] full_host true web_pass (codes "h") (λ e. refl, tt)

apply_address_limit-bounded_example :
    (apply_address_limit lib tenant full_host true [] web_pass).counts.load_balancers
    ≤ (load_balancer_limit tenant).0
      + number_existing (marked tenant full_host true (sort_claims (claims_of web_pass)))
unfolding load_balancer_limit
apply_address_limit-bounded_example =
    apply_address_limit-bounded lib tenant [] full_host true web_pass refl

abbrev web_claim : Claim
web_claim = record {
  ref = record { kind = service; key = record { namespace = codes "default"; name = codes "web" } };
  host_name = codes "h";
  created = 5;
  uid = codes "s-1";
}

turned : (a : Claim) → Any (λ x. x ≡ a) (newer ∷ older ∷ []) → Any (λ x. x ≡ a) (older ∷ newer ∷ [])
turned a (inl p) = inr (inl p)
turned a (inr (inl p)) = inl p
turned a (inr (inr m)) = absurd m

in_order : IsSorted (older ∷ newer ∷ [])
unfolding before
in_order = ((refl, tt), (tt, tt))

sort_claims_unique_example : sort_claims (newer ∷ older ∷ []) ≡ older ∷ newer ∷ []
sort_claims_unique_example =
    sort_claims_unique (newer ∷ older ∷ []) (older ∷ newer ∷ [])
      (λ a b m k. distinct a b (turned a m) (turned b k)) ∣ Permᴰ.swap refl refl ∣₁ in_order
