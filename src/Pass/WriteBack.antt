-- ===== src/Pass/WriteBack.antt =====
-- internal/syncer/writeback.go: the addresses that a guest Service is told, and the condition that
-- says how far its request is met. With it `familyOf` of internal/syncer/service.go.
pub mod Assigned
mod Tests
use vcluster_private_cloud_c.Go.{Library}
use vcluster_private_cloud_c.Prelude.{
  Bool, true, false, ◌||◌, Option, none, some, List, [], ◌∷◌, map, Text, ◌==◌, is_empty, has,
  if◌then◌else◌,
}
use vcluster_private_cloud_c.Service.Families.{ipv4, ipv6}

-- An entry of a load balancer's status. `detail` stands for its ports and address mode.
pub record Entry : Type 0 where
  pub ip : Text
  pub hostname : Text
  pub detail : Text

family_of_parsed : Option Bool → Text
family_of_parsed none = []
family_of_parsed (some true) = ipv4
family_of_parsed (some false) = ipv6

-- The family of an address, empty if it is none.
unfoldable pub family_of : Library → Text → Text
unfolding family_of_parsed
family_of lib addr = family_of_parsed (lib.is_ip4 addr)

-- The families of the entries, or none if an entry has no IP: a hostname stands for all of them.
unfoldable pub got_families : Library → List Entry → Option (List Text)
got_families lib [] = some []
got_families lib (e ∷ entries) =
    let rest = got_families lib entries in
    if is_empty e.ip
    then none
    else elim rest [ none ↦ none | some fams ↦ some (family_of lib e.ip ∷ fams) ]

unfoldable pub not_among : List Text → List Text → List Text
not_among got [] = []
not_among got (w ∷ want) =
    let rest = not_among got want in if has ◌==◌ w got then rest else w ∷ rest

missing_of : List Text → Option (List Text) → List Text
missing_of want none = []
missing_of want (some got) = not_among got want

-- The families that were asked for and have no address.
unfoldable pub missing_families : Library → List Text → List Entry → List Text
unfolding missing_of
missing_families lib want entries =
    if is_empty want then [] else missing_of want (got_families lib entries)

-- The reasons of the condition `HostAddressAssigned`, with what their messages name.
pub data Condition : Type 0 where
  assigned : List Entry → Condition
  partially_assigned : List Entry → List Text → Condition
  pending : List Text → Condition

-- IP and hostname only: ports and modes of the host mean nothing in the guest.
abbrev pub carried : Entry → Entry
carried e = record e { detail = [] }

unfoldable pub condition_of : Library → List Text → List Entry → Condition
condition_of lib want entries =
    let missing = missing_families lib want entries in
    if is_empty entries
    then pending want
    else if is_empty missing
    then assigned entries
    else partially_assigned entries missing

-- What `writeBackServices` writes into a guest Service whose host Service asks for the families
-- `want` and has the status `entries`.
unfoldable pub write_back_service : Library → List Text → List Entry → List Entry × Condition
write_back_service lib want entries =
    let ingress = map carried entries in (ingress, condition_of lib want ingress)
