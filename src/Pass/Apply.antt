-- ===== src/Pass/Apply.antt =====
-- internal/syncer/pass.go: the creation and the update of host objects.
pub mod Guarded
pub mod Ports
mod Tests
use vcluster_private_cloud_c.Gateway.{HostGateway}
use vcluster_private_cloud_c.Ingress.{HostIngress}
use vcluster_private_cloud_c.Meta.{Labels}
use vcluster_private_cloud_c.Ownership.{owned_by, merge_labels}
use vcluster_private_cloud_c.Pass.Refs.{
  Kind, service, ingress, gateway, route, Pass, Problem, Ref, Refusal, refuse,
}
use vcluster_private_cloud_c.Pass.Listing.{ApiError}
use vcluster_private_cloud_c.Prelude.{
  ℕ, Bool, true, false, ◌&&◌, Option, none, some, List, [], ◌∷◌, ◌++◌, map, Text, String, ◌==◌, eqb,
  find, put, remove, sorted_names, is_empty, if◌then◌else◌,
}
use vcluster_private_cloud_c.Route.{HostRoute}
use vcluster_private_cloud_c.Service.{HostService, HostPort, ServiceType}
use vcluster_private_cloud_c.Tenant.{TenantCluster}

-- What the uncached reader answers to a Get call.
pub data Reply (A : Type 0) : Type 0 where
  have : A → Reply A
  absent : Reply A
  error : ApiError → Reply A

-- A Service on the host. `allocated` stands for what the host has allocated to it: the cluster
-- address and the status.
pub record LiveService : Type 0 where
  pub labels : Labels
  pub svc_type : ServiceType
  pub selector : List (String × Text)
  pub ports : List HostPort
  pub ip_families : List Text
  pub ip_family_policy : Option Text
  pub allocated : Text

-- The host's objects by name, in the tenant's namespace. Of Ingresses, Gateways and HTTPRoutes
-- only the labels matter: the specification is replaced.
pub record Reader : Type 0 where
  pub service_at : Text → Reply LiveService
  pub ingress_at : Text → Reply Labels
  pub gateway_at : Text → Reply Labels
  pub route_at : Text → Reply Labels

-- The answers to Create and Update calls.
pub record Writer : Type 0 where
  pub create : Kind → Text → Option ApiError
  pub update : Kind → Text → Option ApiError

-- A call that writes to the host: the labels of the object that it replaces, if there is one, and
-- those that it writes.
pub record Write : Type 0 where
  pub kind : Kind
  pub name : Text
  pub replaced : Option Labels
  pub written : Labels

-- A pass with the writing calls issued so far.
pub record Applying : Type 0 where
  pub state : Pass
  pub writes : List Write

abbrev pub log : Write → Applying → Applying
log w s = record s { writes = s.writes ++ w ∷ [] }

blamed : Kind → ApiError → Option Ref → Pass → Pass
blamed kind e none p = p
blamed kind e (some ref) p = refuse ref (Refusal.host_rejected kind e) p

unfoldable pub apply_problem : Kind → Text → ApiError → Pass → Pass
unfolding blamed
apply_problem kind name e p =
    blamed kind e (find ◌==◌ name p.host_owner)
      (record p { problems = p.problems ++ Problem.apply_failed kind name e ∷ [] })

abbrev pub collide : Kind → Text → Pass → Pass
collide kind name p = record p { problems = p.problems ++ Problem.collision kind name ∷ [] }

-- The node port under the key of a port; a later port of one key counts. Without one it is 0.
unfoldable pub node_port_of : List HostPort → HostPort → ℕ → ℕ
node_port_of [] want other = other
node_port_of (p ∷ ports) want other =
    node_port_of ports want
      (if p.protocol == want.protocol && eqb p.port want.port then p.node_port else other)

-- The wanted ports, each with the node port that the host has assigned to it before.
unfoldable pub reconcile_ports : List HostPort → List HostPort → List HostPort
reconcile_ports ports =
    map λ (want : HostPort). record want { node_port = node_port_of ports want 0 }

-- The fields that an update of a host Service changes; what is allocated stays.
unfoldable pub updated_service : LiveService → HostService → LiveService
updated_service live want = record {
  labels = merge_labels live.labels want.labels;
  svc_type = want.svc_type;
  selector = want.selector;
  ports = reconcile_ports live.ports want.ports;
  ip_families = if is_empty want.ip_families then live.ip_families else want.ip_families;
  ip_family_policy =
      if is_empty want.ip_families then live.ip_family_policy else want.ip_family_policy;
  allocated = live.allocated;
}

-- The Service that the pass keeps after an update.
abbrev pub as_host : HostService → LiveService → HostService
as_host want live = record want {
  labels = live.labels;
  svc_type = live.svc_type;
  selector = live.selector;
  ports = live.ports;
  ip_families = live.ip_families;
  ip_family_policy = live.ip_family_policy;
}

abbrev pub keep_service : Text → HostService → Pass → Pass
keep_service name host p = record p { services = put ◌==◌ name host p.services }

pub after_write : Kind → Text → Option ApiError → (Pass → Pass) → Applying → Applying
after_write kind name none keep s = record s { state = keep s.state }
after_write kind name (some e) keep s = record s { state = apply_problem kind name e s.state }

module _ (tc : TenantCluster) (writer : Writer) where
  pub apply_service_reply : HostService → Reply LiveService → Applying → Applying
  unfolding after_write
  apply_service_reply want absent s =
      after_write service want.name (writer.create service want.name) (keep_service want.name want)
        (log (record { kind = service; name = want.name; replaced = none; written = want.labels })
          s)
  apply_service_reply want (error e) s = record s {
    state = apply_problem service want.name e s.state;
  }
  apply_service_reply want (have live) s =
      let new = updated_service live want in
      if owned_by live.labels tc
      then after_write service want.name (writer.update service want.name)
          (keep_service want.name (as_host want new))
          (log
            (record {
              kind = service;
              name = want.name;
              replaced = some live.labels;
              written = new.labels;
            })
            s)
      else record s {
        state =
            collide service want.name
              (record (s.state) { services = remove ◌==◌ want.name s.state.services });
      }

  -- Ingresses, Gateways and HTTPRoutes: `keep` puts the updated object into the pass, if it is
  -- put there, and `drop` takes the desired one out.
  pub apply_replaced :
      Kind
      → Text
      → Labels
      → Reply Labels
      → (Labels → Pass → Pass)
      → (Pass → Pass)
      → Applying
      → Applying
  unfolding after_write
  apply_replaced kind name labels absent keep drop s =
      after_write kind name (writer.create kind name) (λ p. p)
        (log (record { kind = kind; name = name; replaced = none; written = labels }) s)
  apply_replaced kind name labels (error e) keep drop s = record s {
    state = apply_problem kind name e s.state;
  }
  apply_replaced kind name labels (have old) keep drop s =
      let merged = merge_labels old labels in
      if owned_by old tc
      then after_write kind name (writer.update kind name) (keep merged)
          (log (record { kind = kind; name = name; replaced = some old; written = merged }) s)
      else record s { state = collide kind name (drop s.state) }

  unfoldable pub apply_service : Reader → HostService → Applying → Applying
  unfolding apply_service_reply
  apply_service reader want = apply_service_reply want (reader.service_at want.name)

  unfoldable pub apply_ingress : Reader → HostIngress → Applying → Applying
  unfolding apply_replaced
  apply_ingress reader want =
      apply_replaced ingress want.name want.labels (reader.ingress_at want.name)
        (λ merged p. record p {
          ingresses = put ◌==◌ want.name (record want { labels = merged }) p.ingresses;
        })
        (λ p. record p { ingresses = remove ◌==◌ want.name p.ingresses })

  unfoldable pub apply_gateway : Reader → HostGateway → Applying → Applying
  unfolding apply_replaced
  apply_gateway reader want =
      apply_replaced gateway want.name want.labels (reader.gateway_at want.name)
        (λ merged p. record p {
          gateways = put ◌==◌ want.name (record want { labels = merged }) p.gateways;
        })
        (λ p. record p { gateways = remove ◌==◌ want.name p.gateways })

  unfoldable pub apply_route : Reader → HostRoute → Applying → Applying
  unfolding apply_replaced
  apply_route reader want =
      apply_replaced route want.name want.labels (reader.route_at want.name) (λ merged p. p)
        (λ p. record p { routes = remove ◌==◌ want.name p.routes })

abbrev pub keys : {A : Type 0} → List (Text × A) → List Text
keys m = map (λ entry. entry.0) m

-- The loop over the sorted keys of a map of the pass.
unfoldable pub apply_each :
    {A : Type 0}
    → (Pass → List (Text × A))
    → (A → Applying → Applying)
    → List Text
    → Applying
    → Applying
apply_each of step [] s = s
apply_each of step (name ∷ names) s =
    apply_each of step names
      (elim (find ◌==◌ name (of s.state)) [ none ↦ s | some want ↦ step want s ])

abbrev pub apply_kind :
    {A : Type 0} → (Pass → List (Text × A)) → (A → Applying → Applying) → Applying → Applying
apply_kind of step s = apply_each of step (sorted_names (keys (of s.state))) s

unfoldable pub apply_all : TenantCluster → Writer → Reader → Applying → Applying
apply_all tc writer reader s =
    apply_kind (λ p. p.routes) (apply_route tc writer reader)
      (apply_kind (λ p. p.gateways) (apply_gateway tc writer reader)
        (apply_kind (λ p. p.ingresses) (apply_ingress tc writer reader)
          (apply_kind (λ p. p.services) (apply_service tc writer reader) s)))
