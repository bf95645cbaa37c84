-- ===== src/Pass/Gather/Tests.antt =====
-- The gathering at concrete values.
use vcluster_private_cloud_c.Pass.Gather.{guest_finalizer, gather_services}
use vcluster_private_cloud_c.Pass.Listing.{no_match, items}
use vcluster_private_cloud_c.Pass.Gather.Http.{
  Guest, desired_state, gather_ingresses, gather_gateways,
}
use vcluster_private_cloud_c.Pass.Gather.Reached.{Listed, Answered, desired_state-Listed}
use vcluster_private_cloud_c.Pass.Limit.{HostReader, missing}
use vcluster_private_cloud_c.Tenant.{sync_ingresses, sync_gateways}
use vcluster_private_cloud_c.Pass.Gather.Holders.{HolderIsLoadBalancer, gather_services-holders}
use vcluster_private_cloud_c.Pass.Gather.Pinned.{ServicesArePinned, gather_services-pinned}
use vcluster_private_cloud_c.Pass.Refs.{Pass, new_pass}
use vcluster_private_cloud_c.Prelude.{
  ◌&&◌, true, ◌≡◌, refl, none, some, Option, [], ◌∷◌, codes, find, All, arith,
}
use vcluster_private_cloud_c.Samples.{lib, tenant, web_service}
use vcluster_private_cloud_c.Service.{Service}

-- The sample Service, as a pass finds it that pinned it before.
abbrev pinned_web : Service
pinned_web = record web_service {
  meta = record (web_service.meta) { finalizers = guest_finalizer ∷ [] };
}

abbrev or_empty : Option Pass → Pass
or_empty none = new_pass
or_empty (some p) = p

abbrev gathered : Pass
gathered = or_empty (gather_services lib tenant [] (items (pinned_web ∷ [])) new_pass)

gathers : gather_services lib tenant [] (items (pinned_web ∷ [])) new_pass ≡ some gathered
unfolding gather_services
gathers = refl

empty_pinned : ServicesArePinned lib tenant new_pass
unfolding find
empty_pinned n there f = absurd (ground arith)

gather_services-pinned_example : ServicesArePinned lib tenant gathered
gather_services-pinned_example =
    gather_services-pinned lib tenant [] (items (pinned_web ∷ [])) new_pass gathered gathers
      empty_pinned

gather_services-holders_example :
    All (HolderIsLoadBalancer tenant (pinned_web ∷ [])) gathered.seen_finalizer
gather_services-holders_example =
    gather_services-holders lib tenant [] (pinned_web ∷ []) gathered gathers

abbrev guest : Guest
guest = record {
  services = items (pinned_web ∷ []);
  ingresses = items [];
  gateways = no_match (codes "no kind");
  routes = no_match (codes "no kind");
}

-- A host that holds nothing.
abbrev bare : HostReader
bare = record { service_at = λ name. missing; gateway_at = λ name. missing }

abbrev reached : Pass
reached = or_empty (desired_state lib tenant bare true [] guest)

reaches : desired_state lib tenant bare true [] guest ≡ some reached
unfolding desired_state gather_services gather_ingresses gather_gateways sync_ingresses
    sync_gateways
reaches = refl

desired_state-Listed_example :
    Listed guest.services
    × (sync_ingresses tenant ≡ true → Listed guest.ingresses)
    × ((sync_gateways tenant && true) ≡ true → Answered guest.gateways)
desired_state-Listed_example = desired_state-Listed lib tenant [] bare true guest reached reaches
