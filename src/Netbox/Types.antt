-- ===== src/Netbox/Types.antt =====
-- netbox-sim/internal/state/store.go: the records. A name is the list of its runes; the field `Tags` is
-- always empty, and a text that no operation sets, as `Description`, is "".
use cirrus_sim.Base.{
  ℕ, [], ◌∷◌, List, Option, Bool, String, if◌then◌else◌, leb, ◌==◌, some, ◌&&◌, nat_eq, none,
  string_eq, ◌||◌,
}
use cirrus_sim.Base.Dict.{Dict}
use cirrus_sim.Base.Int64.{Int64}

abbrev pub Runes : Type 0
Runes = List ℕ

abbrev pub CustomFields : Type 0
CustomFields = Dict String String

pub record NamedRef : Type 0 where
  pub id : Int64
  pub url : String
  pub display : String
  pub name : String
  pub slug : String

pub record Site : Type 0 where
  pub id : Int64
  pub name : Runes
  pub slug : Runes
  pub status : String
  pub region : Option NamedRef
  pub description : String
  pub tags : List String
  pub custom_fields : CustomFields
  pub created_at : ℕ
  pub last_updated : ℕ

pub record Location : Type 0 where
  pub id : Int64
  pub name : Runes
  pub slug : Runes
  pub site_id : Int64
  pub parent_id : Int64
  pub status : String
  pub description : String
  pub tags : List String
  pub custom_fields : CustomFields
  pub created_at : ℕ
  pub last_updated : ℕ

pub record Rack : Type 0 where
  pub id : Int64
  pub name : Runes
  pub slug : Runes
  pub site_id : Int64
  pub location_id : Int64
  pub status : String
  pub description : String
  pub u_height : Int64
  pub tags : List String
  pub custom_fields : CustomFields
  pub created_at : ℕ
  pub last_updated : ℕ

pub record Device : Type 0 where
  pub id : Int64
  pub name : Runes
  pub role : String
  pub site_id : Int64
  pub location_id : Int64
  pub rack_id : Int64
  pub position : Int64
  pub face : String
  pub status : String
  pub description : String
  pub tags : List String
  pub custom_fields : CustomFields
  pub created_at : ℕ
  pub last_updated : ℕ

-- the store less its mutex
pub record Store : Type 0 where
  pub sites : Dict Int64 Site
  pub locations : Dict Int64 Location
  pub racks : Dict Int64 Rack
  pub devices : Dict Int64 Device
  pub next_site_id : Int64
  pub next_location_id : Int64
  pub next_rack_id : Int64
  pub next_device_id : Int64

pub record Stats : Type 0 where
  pub site_count : ℕ
  pub rack_count : ℕ
  pub device_count : ℕ
  pub location_count : ℕ

-- `if s == "" { s = … }`
abbrev pub or_default : String → String → String
or_default s default = if s == "" then default else s

-- `if customFields == nil { … }`
abbrev pub or_empty : Option CustomFields → CustomFields
or_empty none = []
or_empty (some fields) = fields

-- a space and an underscore become a hyphen
abbrev pub hyphened : ℕ → ℕ
hyphened c = if c == 0x20 then 0x2d else if c == 0x5f then 0x2d else c

abbrev pub in_slug : ℕ → Bool
in_slug c = (leb 0x61 c && leb c 0x7a) || (leb 0x30 c && leb c 0x39) || (c == 0x2d)

-- `slugify`, where `lower` is `unicode.ToLower`
unfoldable pub slugify : (ℕ → ℕ) → Runes → Runes
slugify lower [] = []
slugify lower (c ∷ cs) =
    let rest = slugify lower cs in
    let d = hyphened (lower c) in if in_slug d then d ∷ rest else rest
