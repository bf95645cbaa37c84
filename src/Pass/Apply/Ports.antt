-- ===== src/Pass/Apply/Ports.antt =====
-- The node ports that an update of a host Service keeps.
use vcluster_private_cloud_c.Pass.Apply.{node_port_of, reconcile_ports}
use vcluster_private_cloud_c.Prelude.{
  ℕ, ◌≡◌, refl, Bool, true, false, ◌&&◌, List, [], ◌∷◌, map, ◌==◌, ==_refl, eqb, All, All-imp,
  arith, if◌then◌else◌,
}
use vcluster_private_cloud_c.Service.{HostPort}

-- Ports are told apart by their protocol and number.
abbrev pub same_port : HostPort → HostPort → Bool
same_port p q = p.protocol == q.protocol && eqb p.port q.port

abbrev pub PortsAreDistinct : List HostPort → Type 0
PortsAreDistinct [] = Unit
PortsAreDistinct (p ∷ ports) = All (λ q. same_port q p ≡ false) ports × PortsAreDistinct ports

node_port_of-other :
    (ports : List HostPort) (want : HostPort) (other : ℕ)
    → All (λ q. same_port q want ≡ false) ports
    → node_port_of ports want other ≡ other
unfolding node_port_of
node_port_of-other [] want other h = refl
node_port_of-other (p ∷ ports) want other (q, h) = rw q (node_port_of-other ports want other h)

same_port_refl : (p : HostPort) → same_port p p ≡ true
same_port_refl p = ground (arith, ==_refl p.protocol)

node_port_of-own :
    (ports : List HostPort)
    → PortsAreDistinct ports
    → All (λ w. (other : ℕ) → node_port_of ports w other ≡ w.node_port) ports
unfolding node_port_of
node_port_of-own [] d = tt
node_port_of-own (p ∷ ports) (h, d) = (
  λ other. rw (same_port_refl p) (node_port_of-other ports p p.node_port h),
  All-imp (λ w f other. f (if same_port p w then p.node_port else other)) ports
      (node_port_of-own ports d),
)

map_fixed :
    (f : HostPort → HostPort) (ports : List HostPort)
    → All (λ p. f p ≡ p) ports
    → map f ports ≡ ports
map_fixed f [] h = refl
map_fixed f (p ∷ ports) (e, h) = ground (arith, e, map_fixed f ports h)

-- An update that wants the ports which the host Service has, each with its own protocol and
-- number, leaves their node ports as they are.
pub reconcile_ports-unchanged :
    (ports : List HostPort) → PortsAreDistinct ports → reconcile_ports ports ports ≡ ports
unfolding reconcile_ports
reconcile_ports-unchanged ports d =
    map_fixed (λ want. record want { node_port = node_port_of ports want 0 }) ports
      (All-imp (λ w f. ground (arith, f 0)) ports (node_port_of-own ports d))
