-- ===== src/Gateway/Safety.antt =====
-- A host Gateway listens on authorized names only, and drops nothing in silence.
use vcluster_private_cloud_c.Go.{Library}
use vcluster_private_cloud_c.Hostname
use vcluster_private_cloud_c.Hostname.Grants.{Authorized, allowed_iff}
use vcluster_private_cloud_c.Meta.{ObjectMeta}
use vcluster_private_cloud_c.Ownership.{host_object_name, ownership_labels}
use vcluster_private_cloud_c.Prelude.{
  Option, ◌≡◌, ◌≢◌, inl, inr, refl, ◌∙◌, none, some, List, [], ◌∷◌, map, Text, is_empty, arith, All,
  Bool-cases, Option-cases,
}
use vcluster_private_cloud_c.Tenant.{TenantCluster}
use vcluster_private_cloud_c.Gateway.{
  ListenerTls, Listener, Gateway, HostGateway, without_certificates, keep_listener, map_listeners,
  host_gateway, map_gateway,
}

-- The listener has a hostname of its own, which is authorized, and names no certificate.
pub record ListenerIsSafe (lib : Library) (tc : TenantCluster) (l : Listener) : Type 0 where
  pub name : Text
  pub named : l.hostname ≡ some name
  pub authorized : Authorized lib.unicode name tc.spec.allowed_domains
  pub bare : (t : ListenerTls) → l.tls ≡ some t → t.certificate_refs ≡ []

pub record HostGatewayIsSafe (lib : Library) (tc : TenantCluster) (guest : ObjectMeta)
    (h : HostGateway) : Type 0 where
  pub listeners : All (ListenerIsSafe lib tc) h.listeners
  pub some_listener : h.listeners ≢ []
  pub name : h.name ≡ host_object_name lib tc.name guest.namespace guest.name
  pub namespace : h.namespace ≡ tc.spec.host_namespace
  pub labels : h.labels ≡ ownership_labels tc guest
  pub class : h.gateway_class_name ≡ tc.spec.gateway_class_name
  pub configured : h.gateway_class_name ≢ []

without_certificates_bare :
    (l : Listener) (t : ListenerTls)
    → (without_certificates l).tls ≡ some t
    → t.certificate_refs ≡ []
unfolding without_certificates
without_certificates_bare l t e = ground arith

without_certificates_named : (l : Listener) → (without_certificates l).hostname ≡ l.hostname
unfolding without_certificates
without_certificates_named l = ground arith

-- A listener without its certificates, and the host Gateway of some listeners, field by field.
abbrev pub bare_tls : Option ListenerTls → Option ListenerTls
bare_tls none = none
bare_tls (some t) = some (record { mode = t.mode; certificate_refs = []; options = t.options })

abbrev pub bare_listener : Listener → Listener
bare_listener l = record {
  name = l.name;
  hostname = l.hostname;
  port = l.port;
  protocol = l.protocol;
  tls = bare_tls l.tls;
  allowed_routes = l.allowed_routes;
}

abbrev pub bare_gateway : Library → TenantCluster → Gateway → HostGateway
bare_gateway lib tc guest = record {
  name = host_object_name lib tc.name guest.meta.namespace guest.meta.name;
  namespace = tc.spec.host_namespace;
  labels = ownership_labels tc guest.meta;
  gateway_class_name = tc.spec.gateway_class_name;
  listeners = map bare_listener guest.listeners;
}

module _ (lib : Library) (tc : TenantCluster) where
  map_listeners-safe :
      (listeners : List Listener)
      → All (ListenerIsSafe lib tc) (map_listeners lib tc listeners).kept
  unfolding map_listeners keep_listener
  map_listeners-safe [] = tt
  map_listeners-safe (l ∷ listeners) = elim (Option-cases l.hostname) [
    | inl e ↦ rw (e, map_listeners) (map_listeners-safe listeners)
    | inr (h, e) ↦ elim (Bool-cases (is_empty h)) [
      | inl blank ↦ rw (e, map_listeners, blank) (map_listeners-safe listeners)
      | inr filled ↦ elim (Bool-cases (Hostname.allowed lib.unicode h tc.spec.allowed_domains)) [
        | inr refused ↦ rw (e, map_listeners, filled, refused) (map_listeners-safe listeners)
        | inl fine ↦
            rw (e, map_listeners, filled, fine)
              (
                record {
                  name = h;
                  named = without_certificates_named l ∙ e;
                  authorized = (allowed_iff lib.unicode h tc.spec.allowed_domains).0 fine;
                  bare = without_certificates_bare l;
                },
                map_listeners-safe listeners,
              )
      ]
    ]
  ]

-- Whatever a guest writes into a Gateway, the host Gateway made of it has at least one listener,
-- each with an authorized hostname and without references to certificates, under the operator's
-- class, which is configured.
pub map_gateway-safe :
    (lib : Library) (tc : TenantCluster) (guest : Gateway) (h : HostGateway)
    → (map_gateway lib tc guest).host ≡ some h
    → HostGatewayIsSafe lib tc guest.meta h
unfolding map_gateway host_gateway
map_gateway-safe lib tc guest h e = elim (Bool-cases (is_empty tc.spec.gateway_class_name)) [
  | inl blank ↦ absurd (ground arith)
  | inr class ↦ elim (Bool-cases (is_empty (map_listeners lib tc guest.listeners).kept)) [
    | inl none_kept ↦ absurd (ground arith)
    | inr some_kept ↦
        let made : host_gateway lib tc guest.meta (map_listeners lib tc guest.listeners).kept ≡ h =
          ground arith in
        rw (← made) (record {
          listeners = map_listeners-safe lib tc guest.listeners;
          some_listener = λ blank. ground arith;
          name = refl;
          namespace = refl;
          labels = refl;
          class = refl;
          configured = λ blank. ground arith;
        })
  ]
]
