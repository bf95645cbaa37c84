-- ===== src/Pass/Finalizers/Tests.antt =====
-- The finalizers at concrete values.
use vcluster_private_cloud_c.Pass.Finalizers.{ControllerUtil, Updater, release_guest_finalizers}
use vcluster_private_cloud_c.Pass.Finalizers.Released.{
  IsReleased, release_guest_finalizers-IsReleased,
}
use vcluster_private_cloud_c.Pass.Gather.{gather_services}
use vcluster_private_cloud_c.Pass.Gather.Pinned.{ServicesArePinned, gather_services-pinned}
use vcluster_private_cloud_c.Pass.Listing.{items}
use vcluster_private_cloud_c.Ownership.{guest_finalizer}
use vcluster_private_cloud_c.Service.{Service}
use vcluster_private_cloud_c.Pass.Refs.{Pass, new_pass}
use vcluster_private_cloud_c.Prelude.{
  refl, arith, some, find, Option, ◌≡◌, true, none, [], ◌∷◌, All,
}
use vcluster_private_cloud_c.Samples.{lib, tenant, meta_of, web_service}

abbrev util : ControllerUtil
util = record {
  add_finalizer = λ obj f. (record obj { finalizers = f ∷ [] }, true);
  remove_finalizer = λ obj f. (record obj { finalizers = [] }, true);
}

abbrev accepting : Updater
accepting ref obj = none

-- A Service that is published, and one that was pinned and is being deleted.
abbrev leaving : Service
leaving = record web_service {
  meta = record (meta_of "old" "s-9" 2 []) { deleting = true; finalizers = guest_finalizer ∷ [] };
}

abbrev or_empty : Option Pass → Pass
or_empty none = new_pass
or_empty (some p) = p

abbrev gathered : Pass
gathered = or_empty (gather_services lib tenant [] (items (web_service ∷ leaving ∷ [])) new_pass)

gathers :
    gather_services lib tenant [] (items (web_service ∷ leaving ∷ [])) new_pass ≡ some gathered
unfolding gather_services
gathers = refl

empty_pinned : ServicesArePinned lib tenant new_pass
unfolding find
empty_pinned n there f = absurd (ground arith)

release_guest_finalizers-IsReleased_example :
    All
      (λ x. IsReleased lib tenant gathered x.0)
      (release_guest_finalizers util accepting (record { state = gathered; updated = [] })).updated
release_guest_finalizers-IsReleased_example =
    release_guest_finalizers-IsReleased util accepting lib tenant gathered (
      gather_services-pinned lib tenant [] (items (web_service ∷ leaving ∷ [])) new_pass gathered
        gathers empty_pinned)
