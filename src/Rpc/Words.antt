-- ===== src/Rpc/Words.antt =====
-- `binary.BigEndian` and slices, as libvirt-sim/internal/rpc uses them. A byte is a number below 256,
-- an `int32` or `int64` is its bit pattern; what Go panics on is `none`.
use cirrus_sim.Base.{
  ℕ, arith, List, ◌/◌, ◌≤◌, Option, ◌<◌, ◌^◌, if◌then◌else◌, drop, length, ◌%◌, leb, ◌++◌, ◌≢◌,
  none, some, ◌∷◌, ◌≡◌, ◌&&◌, ap, take, ◌*◌, [], ◌-◌, ◌+◌,
}

abbrev pub Bytes : Type 0
Bytes = List ℕ

unfoldable pub put_uint32 : ℕ → Bytes
put_uint32 v = v / 2 ^ 24 % 256 ∷ v / 2 ^ 16 % 256 ∷ v / 2 ^ 8 % 256 ∷ v % 256 ∷ []

unfoldable pub put_uint64 : ℕ → Bytes
unfolding put_uint32
put_uint64 v = put_uint32 (v / 2 ^ 32) ++ put_uint32 (v % 2 ^ 32)

unfoldable pub get_uint32 : Bytes → Option ℕ
get_uint32 (a ∷ b ∷ c ∷ d ∷ bs) = some (a * 2 ^ 24 + b * 2 ^ 16 + c * 2 ^ 8 + d)
get_uint32 bs = none

abbrev joined : Option ℕ → Option ℕ → Option ℕ
joined (some hi) (some lo) = some (hi * 2 ^ 32 + lo)
joined _ _ = none

unfoldable pub get_uint64 : Bytes → Option ℕ
unfolding get_uint32
get_uint64 bs = joined (get_uint32 bs) (get_uint32 (drop 4 bs))

-- `data[a:b]`
unfoldable pub slice : ℕ → ℕ → Bytes → Option Bytes
slice a b bytes =
    if leb a b && leb b (length bytes) then some (take (b - a) (drop a bytes)) else none

-- `data[a:]`
unfoldable pub slice_from : ℕ → Bytes → Option Bytes
slice_from a bytes = if leb a (length bytes) then some (drop a bytes) else none

pub get_uint32-put_uint32 :
    (v : ℕ) (rest : Bytes) → v < 2 ^ 32 → get_uint32 (put_uint32 v ++ rest) ≡ some v
unfolding put_uint32 get_uint32
get_uint32-put_uint32 v rest h = ap some (omega arith)

pub get_uint64-put_uint64 :
    (v : ℕ) (rest : Bytes) → v < 2 ^ 64 → get_uint64 (put_uint64 v ++ rest) ≡ some v
unfolding put_uint64 get_uint64
get_uint64-put_uint64 v rest h = ground (
  arith,
  get_uint32-put_uint32 (v / 2 ^ 32) (put_uint32 (v % 2 ^ 32) ++ rest),
  get_uint32-put_uint32 (v % 2 ^ 32) rest,
)

pub get_uint32_total : (bs : Bytes) → 4 ≤ length bs → get_uint32 bs ≢ none
unfolding get_uint32
get_uint32_total (a ∷ b ∷ c ∷ d ∷ bs) h e = ground arith
get_uint32_total [] h e = ground arith
get_uint32_total (a ∷ []) h e = ground arith
get_uint32_total (a ∷ b ∷ []) h e = ground arith
get_uint32_total (a ∷ b ∷ c ∷ []) h e = ground arith
