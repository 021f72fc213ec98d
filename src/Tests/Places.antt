-- ===== src/Tests/Places.antt =====
-- The locations of netbox-sim on concrete data.
use cirrus_sim.Base.{
  refl, nat_eq, ℕ, [], ◌∷◌, ◌≡◌, List, if◌then◌else◌, none, leb, some, length, ◌&&◌, ◌≤◌, ◌+◌,
  arith,
}
use cirrus_sim.Netbox.Types.{Store, Location, slugify}
use cirrus_sim.Netbox.Store.{
  new_store, location_ancestors, add_location, count_devices_in_rack, add_rack, list_devices,
  add_device, count_racks_in_site, list_racks,
}
use cirrus_sim.Netbox.Ancestors.{IsChain, location_ancestors-IsChain}
use cirrus_sim.Netbox.Counts.{counts-lists}

-- two locations, each the parent of the other
abbrev cycle : Store
unfolding add_location new_store
cycle =
    (add_location (λ c. c) 2 (66 ∷ []) 1 1 none
      (add_location (λ c. c) 1 (65 ∷ []) 1 2 none new_store).1).1

abbrev lower_ascii : ℕ → ℕ
lower_ascii c = if leb 65 c && leb c 90 then c + 32 else c

-- "A_b !" becomes "a-b-"
slug : slugify lower_ascii (65 ∷ 95 ∷ 98 ∷ 32 ∷ 33 ∷ []) ≡ 97 ∷ 45 ∷ 98 ∷ 45 ∷ []
unfolding slugify
slug = refl

location_ancestors-IsChain_example :
    (chain : List Location) × (location_ancestors 1 cycle ≡ some chain)
    × IsChain cycle.locations [] 1 chain
    × (length chain ≤ length cycle.locations)
location_ancestors-IsChain_example = location_ancestors-IsChain 1 cycle

abbrev racked : Store
unfolding add_rack add_device new_store
racked =
    (add_device 2 (66 ∷ []) "" 1 0 1 4 "" none
      (add_rack (λ c. c) 1 (65 ∷ []) 1 0 "" none new_store).1).1

counts-lists_example :
    (count_devices_in_rack 1 racked ≡ length (list_devices 1 "" racked))
    × (count_racks_in_site 1 racked ≡ length (list_racks 1 racked))
counts-lists_example = counts-lists 1 racked (λ e. ground arith)
