-- ===== src/Netbox/Store.antt =====
-- netbox-sim/internal/state/store.go: the operations of the store. A pointer that may be nil is an
-- `Option`; the order of a list that a call returns is not fixed in Go.
use cirrus_sim.Base.{
  nat_eq, ℕ, [], ◌∷◌, Option, length, ◌-◌, List, String, ◌+◌, ◌%◌, suc, keep_if, none,
  if◌then◌else◌, ◌==◌, ◌||◌, contains, ◌&&◌, some, zero, string_eq,
}
use cirrus_sim.Base.Dict.{Dict, lookup, insert, values}
use cirrus_sim.Base.Int64.{Int64, two64}
use cirrus_sim.Netbox.Types.{
  Store, Site, Location, Rack, Device, Stats, Runes, NamedRef, CustomFields, slugify, or_empty,
  or_default,
}

unfoldable pub new_store : Store
new_store = record {
  sites = [];
  locations = [];
  racks = [];
  devices = [];
  next_site_id = 1;
  next_location_id = 1;
  next_rack_id = 1;
  next_device_id = 1;
}

-- `n++` on an `int`
unfoldable pub next : Int64 → Int64
next n = (n + 1) % two64

module _ (lower : ℕ → ℕ) where
  unfoldable pub add_site :
      ℕ → Runes → String → Option NamedRef → Option CustomFields → Store → Int64 × Store
  unfolding slugify next
  add_site now name status region custom_fields s = (
    s.next_site_id,
    record s {
      sites =
          insert s.next_site_id
            (record {
              id = s.next_site_id;
              name = name;
              slug = slugify lower name;
              status = or_default status "active";
              region = region;
              description = "";
              tags = [];
              custom_fields = or_empty custom_fields;
              created_at = now;
              last_updated = now;
            })
            s.sites;
      next_site_id = next s.next_site_id;
    },
  )

  unfoldable pub add_location :
      ℕ → Runes → Int64 → Int64 → Option CustomFields → Store → Int64 × Store
  unfolding slugify next
  add_location now name site_id parent_id custom_fields s = (
    s.next_location_id,
    record s {
      locations =
          insert s.next_location_id
            (record {
              id = s.next_location_id;
              name = name;
              slug = slugify lower name;
              site_id = site_id;
              parent_id = parent_id;
              status = "active";
              description = "";
              tags = [];
              custom_fields = or_empty custom_fields;
              created_at = now;
              last_updated = now;
            })
            s.locations;
      next_location_id = next s.next_location_id;
    },
  )

  unfoldable pub add_rack :
      ℕ → Runes → Int64 → Int64 → String → Option CustomFields → Store → Int64 × Store
  unfolding slugify next
  add_rack now name site_id location_id status custom_fields s = (
    s.next_rack_id,
    record s {
      racks =
          insert s.next_rack_id
            (record {
              id = s.next_rack_id;
              name = name;
              slug = slugify lower name;
              site_id = site_id;
              location_id = location_id;
              status = or_default status "active";
              description = "";
              u_height = 42;
              tags = [];
              custom_fields = or_empty custom_fields;
              created_at = now;
              last_updated = now;
            })
            s.racks;
      next_rack_id = next s.next_rack_id;
    },
  )

unfoldable pub add_device :
    ℕ
    → Runes
    → String
    → Int64
    → Int64
    → Int64
    → Int64
    → String
    → Option CustomFields
    → Store
    → Int64 × Store
unfolding next
add_device now name role site_id location_id rack_id position status custom_fields s = (
  s.next_device_id,
  record s {
    devices =
        insert s.next_device_id
          (record {
            id = s.next_device_id;
            name = name;
            role = or_default role "server";
            site_id = site_id;
            location_id = location_id;
            rack_id = rack_id;
            position = position;
            face = "front";
            status = or_default status "active";
            description = "";
            tags = [];
            custom_fields = or_empty custom_fields;
            created_at = now;
            last_updated = now;
          })
          s.devices;
    next_device_id = next s.next_device_id;
  },
)

abbrev pub minus_one : Int64
minus_one = two64 - 1

unfoldable pub list_sites : Store → List Site
list_sites s = values s.sites

-- Site 0 and parent -1 let every location pass.
unfoldable pub list_locations : Int64 → Int64 → Store → List Location
list_locations site_id parent_id s =
    keep_if
      (λ l.
        (site_id == 0 || l.site_id == site_id)
        && (parent_id == minus_one || l.parent_id == parent_id))
      (values s.locations)

unfoldable pub list_racks : Int64 → Store → List Rack
list_racks site_id s = keep_if (λ r. site_id == 0 || r.site_id == site_id) (values s.racks)

unfoldable pub list_devices : Int64 → String → Store → List Device
list_devices rack_id role s =
    keep_if (λ d. (rack_id == 0 || d.rack_id == rack_id) && (role == "" || d.role == role))
      (values s.devices)

unfoldable pub get_site : Int64 → Store → Option Site
get_site id s = lookup id s.sites

unfoldable pub get_location : Int64 → Store → Option Location
get_location id s = lookup id s.locations

unfoldable pub get_rack : Int64 → Store → Option Rack
get_rack id s = lookup id s.racks

abbrev pub chain_onto : Location → Option (List Location) → Option (List Location)
chain_onto loc none = none
chain_onto loc (some chain) = some (loc ∷ chain)

-- The loop of `LocationAncestors` on as many rounds as `fuel`; `none` is a loop that goes on.
unfoldable pub climb : ℕ → Int64 → List Int64 → Dict Int64 Location → Option (List Location)
climb zero id seen locs = none
climb (suc fuel) id seen locs = elim (lookup id locs) [
  | none ↦ some []
  | some loc ↦
      let rest = climb fuel loc.parent_id (id ∷ seen) locs in
      if id == 0 || contains seen id then some [] else chain_onto loc rest
]

-- one round for each location, and one to end
unfoldable pub location_ancestors : Int64 → Store → Option (List Location)
unfolding climb
location_ancestors id s = climb (suc (length s.locations)) id [] s.locations

unfoldable pub count_devices_in_rack : Int64 → Store → ℕ
count_devices_in_rack id s = length (keep_if (λ d. d.rack_id == id) (values s.devices))

unfoldable pub count_racks_in_location : Int64 → Store → ℕ
count_racks_in_location id s = length (keep_if (λ r. r.location_id == id) (values s.racks))

unfoldable pub count_devices_in_location : Int64 → Store → ℕ
count_devices_in_location id s = length (keep_if (λ d. d.location_id == id) (values s.devices))

unfoldable pub count_racks_in_site : Int64 → Store → ℕ
count_racks_in_site id s = length (keep_if (λ r. r.site_id == id) (values s.racks))

unfoldable pub count_devices_in_site : Int64 → Store → ℕ
count_devices_in_site id s = length (keep_if (λ d. d.site_id == id) (values s.devices))

unfoldable pub get_stats : Store → Stats
get_stats s = record {
  site_count = length s.sites;
  rack_count = length s.racks;
  device_count = length s.devices;
  location_count = length s.locations;
}

unfoldable pub reset : Store → Store
unfolding new_store
reset s = new_store
