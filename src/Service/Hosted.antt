-- ===== src/Service/Hosted.antt =====
-- What `mapService` builds, and when it refuses.
use vcluster_private_cloud_c.Prelude.{
  Member, ◌≡◌, ◌≢◌, ◌↔◌, ◌⊎◌, inl, inr, refl, ap, sym, ◌∙◌, true, false, Option, none, List, [],
  ◌∷◌, map, Text, eqb, arith, All, Bool-cases, Option-cases,
}
use vcluster_private_cloud_c.Go.{Library}
use vcluster_private_cloud_c.Ownership.{host_object_name, ownership_labels}
use vcluster_private_cloud_c.Tenant.{TenantCluster}
use vcluster_private_cloud_c.Service.{
  Service, ServiceType, cluster_ip, load_balancer, ServicePort, HostPort, HostService,
  is_load_balancer,
}
use vcluster_private_cloud_c.Service.Families.{
  contains_family, Requested, asks, refused, requested_address_families, first_missing,
  unsupported_family,
}
use vcluster_private_cloud_c.Service.Mapping.{
  mapped, Ports, published, unreachable, map_port, map_ports, prepend, map_service,
  map_service_ports, with_families, host_service,
}
use vcluster_private_cloud_c.Service.Requests.{contains_family_iff}

-- Every port has a node port, so the host can reach the workload through it.
abbrev pub Reachable : List ServicePort → Type 0
Reachable ports = All (λ p. p.node_port ≢ 0) ports

-- A port of the host: it keeps the number, and leads to the guest's node port; a node port of
-- its own is left to the host.
abbrev pub through_node_port : ServicePort → HostPort
through_node_port p = record {
  name = p.name;
  protocol = p.protocol;
  port = p.port;
  target_port = p.node_port;
  node_port = 0;
}

map_port-through : (ports : List ServicePort) → map map_port ports ≡ map through_node_port ports
unfolding map_port
map_port-through [] = refl
map_port-through (p ∷ ports) = ap (◌∷◌ (through_node_port p)) (map_port-through ports)

prepend-eq-published :
    (p : HostPort) (r : Ports) (out : List HostPort)
    → prepend p r ≡ published out
    → (ps : List HostPort) × (r ≡ published ps) × (out ≡ p ∷ ps)
unfolding prepend
prepend-eq-published p (published ps) out e = (ps, refl, ground arith)
prepend-eq-published p (unreachable n) out e = absurd (ground arith)

map_ports-published :
    (ports : List ServicePort) (out : List HostPort)
    → map_ports ports ≡ published out
    → Reachable ports × (out ≡ map map_port ports)
unfolding map_ports
map_ports-published [] out e = (tt, ground arith)
map_ports-published (p ∷ ports) out e = elim (Bool-cases (eqb p.node_port 0)) [
  | inl zero ↦ absurd (ground arith)
  | inr alloc ↦
      let (ps, q, same) = prepend-eq-published (map_port p) (map_ports ports) out (rw alloc at e) in
      let (reach, rest) = map_ports-published ports ps q in
      ((ground arith, reach), same ∙ ap (◌∷◌ (map_port p)) rest)
]

map_ports-Reachable :
    (ports : List ServicePort) → Reachable ports → map_ports ports ≡ published (map map_port ports)
unfolding map_ports prepend
map_ports-Reachable [] h = refl
map_ports-Reachable (p ∷ ports) (q, h) = rw (map_ports-Reachable ports h) (ground arith)

-- What the host is asked for: nothing but families that it has, if it is known what it has.
abbrev pub Supplied : List Text → List Text → Type 0
Supplied host_families fams = (host_families ≡ []) ⊎ All (λ f. Member f host_families) fams

first_missing-none :
    (want host : List Text) → first_missing want host ≡ none → All (λ f. Member f host) want
unfolding first_missing
first_missing-none [] host e = tt
first_missing-none (w ∷ want) host e = elim (Bool-cases (contains_family host w)) [
  | inl has ↦ ((contains_family_iff host w).0 has, first_missing-none want host (ground arith))
  | inr lacks ↦ absurd (ground arith)
]

unsupported_family-none :
    (want host : List Text) → unsupported_family want host ≡ none → Supplied host want
unfolding unsupported_family
unsupported_family-none want [] e = inl refl
unsupported_family-none want (h ∷ host) e = inr (first_missing-none want (h ∷ host) e)

-- The host Service of a guest Service: the guest's ports behind its node ports, the operator's
-- namespace and selector, the ownership labels, and address families only on a LoadBalancer.
pub record IsHostOf (lib : Library) (tc : TenantCluster) (guest : Service) (kind : ServiceType)
    (host_families : List Text) (host : HostService) : Type 0 where
  pub reachable : Reachable guest.ports
  pub some_port : guest.ports ≢ []
  pub ports : host.ports ≡ map through_node_port guest.ports
  pub name : host.name ≡ host_object_name lib tc.name guest.meta.namespace guest.meta.name
  pub namespace : host.namespace ≡ tc.spec.host_namespace
  pub labels : host.labels ≡ ownership_labels tc guest.meta
  pub selector : host.selector ≡ tc.spec.node_selector
  pub svc_type : host.svc_type ≡ kind
  pub backend : is_load_balancer kind ≡ false → host.ip_families ≡ []
  pub asked :
      is_load_balancer kind ≡ true
      → requested_address_families lib guest ≡ asks host.ip_families host.ip_family_policy
  pub supplied : Supplied host_families host.ip_families

with_families-eq-mapped :
    (host_families : List Text) (base host : HostService) (r : Requested)
    → with_families host_families base r ≡ mapped host
    → (fams : List Text) × (policy : Option Text) × (r ≡ asks fams policy)
      × (host ≡ record base { ip_families = fams; ip_family_policy = policy })
      × Supplied host_families fams
unfolding with_families
with_families-eq-mapped hf base host (refused x) e = absurd (ground arith)
with_families-eq-mapped hf base host (asks fams policy) e =
    elim (Option-cases (unsupported_family fams hf)) [
      | inl fits ↦ (fams, policy, refl, ground arith, unsupported_family-none fams hf fits)
      | inr (f, lacks) ↦ absurd (ground arith)
    ]

module _ (lib : Library) (tc : TenantCluster) (guest : Service) (host_families : List Text) where
  built-IsHostOf :
      (kind : ServiceType) (p : HostPort) (ps : List HostPort) (host : HostService)
      → Reachable guest.ports × (p ∷ ps ≡ map map_port guest.ports)
      → map_service_ports lib tc guest kind host_families (published (p ∷ ps)) ≡ mapped host
      → IsHostOf lib tc guest kind host_families host
  unfolding map_service_ports host_service
  built-IsHostOf kind p ps host (reach, same) e = elim (Bool-cases (is_load_balancer kind)) [
    | inr plain ↦
        let made : host_service lib tc guest kind (p ∷ ps) ≡ host = ground arith in
        rw (← made) (record {
          reachable = reach;
          some_port = λ blank. ground (arith, ap (map map_port) blank);
          ports = same ∙ map_port-through guest.ports;
          name = refl;
          namespace = refl;
          labels = refl;
          selector = refl;
          svc_type = refl;
          backend = λ _. refl;
          asked = λ lb. absurd (cc (plain, lb));
          supplied = inr tt;
        })
    | inl lb ↦
        let (fams, policy, req, made, fits) =
          with_families-eq-mapped host_families (host_service lib tc guest kind (p ∷ ps)) host
            (requested_address_families lib guest) (rw lb at e) in
        rw made (record {
          reachable = reach;
          some_port = λ blank. ground (arith, ap (map map_port) blank);
          ports = same ∙ map_port-through guest.ports;
          name = refl;
          namespace = refl;
          labels = refl;
          selector = refl;
          svc_type = refl;
          backend = λ plain. absurd (cc (plain, lb));
          asked = λ _. req;
          supplied = fits;
        })
  ]

  mapped-IsHostOf :
      (kind : ServiceType) (ports : Ports) (host : HostService)
      → map_ports guest.ports ≡ ports
      → map_service_ports lib tc guest kind host_families ports ≡ mapped host
      → IsHostOf lib tc guest kind host_families host
  unfolding map_service_ports
  mapped-IsHostOf kind (unreachable n) host q e = absurd (ground arith)
  mapped-IsHostOf kind (published []) host q e = absurd (ground arith)
  mapped-IsHostOf kind (published (p ∷ ps)) host q e =
      built-IsHostOf kind p ps host (map_ports-published guest.ports (p ∷ ps) q) e

  -- Every host Service that is built is as `IsHostOf` says: its ports are the guest's, in
  -- order, with their names, protocols and numbers, each to the guest's node port, which exists;
  -- it stands under the derived name, in the operator's namespace, with the
  -- ownership labels; and it asks for families on a LoadBalancer only, and for none that the host
  -- is known not to have.
  pub map_service-IsHostOf :
      (kind : ServiceType) (host : HostService)
      → map_service lib tc guest kind host_families ≡ mapped host
      → IsHostOf lib tc guest kind host_families host
  unfolding map_service
  map_service-IsHostOf kind host e = mapped-IsHostOf kind (map_ports guest.ports) host refl e

  -- A backend Service can be built exactly for a guest Service that has ports, each with a node
  -- port.
  pub map_service-cluster_ip_iff :
      ((host : HostService) × (map_service lib tc guest cluster_ip host_families ≡ mapped host))
      ↔ ((guest.ports ≢ []) × Reachable guest.ports)
  unfolding map_service map_service_ports
  map_service-cluster_ip_iff = (to, from guest.ports refl)
    where
      to :
          ((host : HostService) × (map_service lib tc guest cluster_ip host_families ≡ mapped host))
          → (guest.ports ≢ []) × Reachable guest.ports
      to (host, e) = let h = map_service-IsHostOf cluster_ip host e in (h.some_port, h.reachable)

      from :
          (ports : List ServicePort)
          → guest.ports ≡ ports
          → (guest.ports ≢ []) × Reachable guest.ports
          → (host : HostService) × (map_service lib tc guest cluster_ip host_families ≡ mapped host)
      from [] q (some_port, reach) = absurd (some_port q)
      from (p ∷ ps) q (some_port, reach) = (
        host_service lib tc guest cluster_ip (map map_port (p ∷ ps)),
        rw (map_ports-Reachable guest.ports reach, q) refl,
      )

  -- What can be published on an address can be a backend too: the downgrade of a Service that the
  -- address limit refuses never fails.
  pub map_service-downgrade :
      (host : HostService)
      → map_service lib tc guest load_balancer host_families ≡ mapped host
      → (backend : HostService) × (map_service lib tc guest cluster_ip host_families
          ≡ mapped backend)
        × (backend.name ≡ host.name)
        × (backend.ports ≡ host.ports)
  map_service-downgrade host e =
      let h = map_service-IsHostOf load_balancer host e in
      let (backend, f) = map_service-cluster_ip_iff.1 (h.some_port, h.reachable) in
      let b = map_service-IsHostOf cluster_ip backend f in
      (backend, f, b.name ∙ sym h.name, b.ports ∙ sym h.ports)
