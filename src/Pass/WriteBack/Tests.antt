-- ===== src/Pass/WriteBack/Tests.antt =====
-- The write-back at concrete values.
use vcluster_private_cloud_c.Pass.WriteBack.{Entry, assigned, write_back_service}
use vcluster_private_cloud_c.Pass.WriteBack.Assigned.{told, Served, write_back_service_iff}
use vcluster_private_cloud_c.Prelude.{◌≡◌, ◌≢◌, ◌↔◌, List, [], ◌∷◌, map, codes, All}
use vcluster_private_cloud_c.Samples.{lib}
use vcluster_private_cloud_c.Service.Families.{ipv4}

abbrev entries : List Entry
entries = record { ip = codes "10.0.0.1"; hostname = []; detail = codes "VIP" } ∷ []

write_back_service_iff_example :
    ((write_back_service lib (ipv4 ∷ []) entries).0 ≡ map told entries)
    × (((write_back_service lib (ipv4 ∷ []) entries).1 ≡ assigned (map told entries))
        ↔ ((entries ≢ []) × All (Served lib (map told entries)) (ipv4 ∷ [])))
write_back_service_iff_example = write_back_service_iff lib (ipv4 ∷ []) entries
