-- ===== src/Libvirt/DomainXml.antt =====
-- libvirt-sim/internal/xml/domain.go: what is read of a domain's XML, and what it stands for.
use Prim.Native.Char.{code}
use cirrus_sim.Base.{
  Option, List, String, ℕ, [], if◌then◌else◌, keep_if, ◌∷◌, some, Bool, not, none, map, ◌||◌, true,
  leb, ◌&&◌, ◌*◌, ◌==◌, false, string_eq, length, ◌+◌, ◌-◌, nat_eq,
}
use cirrus_sim.Base.Int64.{Int64, mul64, div64}

-- `DomainInterface`, as far as its virtual port: `none` for a nil pointer, else the interface id
pub record DomainInterface : Type 0 where
  pub virtual_port : Option String

-- `DomainXML`, less the fields that nothing reads
pub record DomainXml : Type 0 where
  pub name : String
  pub uuid : String
  pub memory_unit : String
  pub memory_value : Int64
  pub vcpu : Int64
  pub interfaces : List DomainInterface

-- the code points of a text
abbrev pub codes : String → List ℕ
codes String.[] = []
codes (String.◌∷◌ c s) = code c ∷ codes s

-- `unicode.ToLower`, as far as its results are ASCII: A to Z, the dotted I and the Kelvin sign
unfoldable pub lower : ℕ → ℕ
lower c =
    if leb b'A' c && leb c b'Z'
    then c + 32
    else if c == 0x130
    then b'i'
    else if c == 0x212a
    then b'k'
    else c

unfoldable pub same_codes : List ℕ → List ℕ → Bool
same_codes [] [] = true
same_codes [] (_ ∷ _) = false
same_codes (_ ∷ _) [] = false
same_codes (x ∷ xs) (y ∷ ys) = (x == y) && same_codes xs ys

-- `strings.ToLower(unit) == name`
unfoldable pub unit_is : String → String → Bool
unfolding lower same_codes
unit_is unit name = same_codes (map lower (codes unit)) (codes name)

-- `MemoryKiB`
unfoldable pub memory_kib_of : DomainXml → Int64
unfolding unit_is
memory_kib_of d =
    let v = d.memory_value in
    let u = d.memory_unit in
    if unit_is u "kib" || unit_is u "k"
    then v
    else if unit_is u "mib" || unit_is u "m"
    then mul64 v 1024
    else if unit_is u "gib" || unit_is u "g"
    then mul64 (mul64 v 1024) 1024
    else if unit_is u "tib" || unit_is u "t"
    then mul64 (mul64 (mul64 v 1024) 1024) 1024
    else if unit_is u "b" || unit_is u "bytes"
    then div64 v 1024
    else v

-- `InterfaceIDs`
unfoldable pub interface_ids_of : List DomainInterface → List String
interface_ids_of [] = []
interface_ids_of (i ∷ is) =
    let rest = interface_ids_of is in
    elim i.virtual_port [ none ↦ rest | some id ↦ if id == "" then rest else id ∷ rest ]

-- the value of a hexadecimal digit
unfoldable pub hex_value : ℕ → Option ℕ
hex_value c =
    if leb b'0' c && leb c b'9'
    then some (c - 48)
    else if leb b'a' c && leb c b'f'
    then some (c - 87)
    else if leb b'A' c && leb c b'F'
    then some (c - 55)
    else none

-- `hex.DecodeString`; an odd length is an error
unfoldable pub hex_decode : List ℕ → Option (List ℕ)
unfolding hex_value
hex_decode [] = some []
hex_decode (a ∷ []) = none
hex_decode (a ∷ b ∷ cs) = elim (hex_value a) [
  | none ↦ none
  | some x ↦ elim (hex_value b) [
    | none ↦ none
    | some y ↦ elim (hex_decode cs) [ none ↦ none | some bs ↦ some ((x * 16 + y) ∷ bs) ]
  ]
]

-- `ParseUUID`: a character over ASCII makes both the count of bytes and the digits wrong
unfoldable pub parse_uuid : String → Option (List ℕ)
unfolding hex_decode
parse_uuid s =
    let digits = keep_if (λ c. not (c == b'-')) (codes s) in
    if not (length digits == 32) then none else hex_decode digits
