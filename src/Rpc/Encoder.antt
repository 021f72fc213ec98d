-- ===== src/Rpc/Encoder.antt =====
-- libvirt-sim/internal/rpc/xdr.go: `XDREncoder`.
use cirrus_sim.Base.{
  ℕ, Bool, suc, take, ◌-◌, [], ◌++◌, length, Option, ◌∷◌, if◌then◌else◌, ◌%◌, some, none, ◌^◌, zero,
}
use cirrus_sim.Base.ListLaws.{replicate}
use cirrus_sim.Rpc.Words.{Bytes, put_uint32, put_uint64}

pub record XdrEncoder : Type 0 where
  pub buf : Bytes

unfoldable pub new_encoder : XdrEncoder
new_encoder = record { buf = [] }

-- `e.buf = append(e.buf, bs...)`
unfoldable pub append_bytes : Bytes → XdrEncoder → XdrEncoder
append_bytes bs e = record e { buf = e.buf ++ bs }

unfoldable pub write_int32 : ℕ → XdrEncoder → XdrEncoder
unfolding append_bytes put_uint32
write_int32 v e = append_bytes (put_uint32 v) e

unfoldable pub write_uint32 : ℕ → XdrEncoder → XdrEncoder
unfolding append_bytes put_uint32
write_uint32 v e = append_bytes (put_uint32 v) e

unfoldable pub write_int64 : ℕ → XdrEncoder → XdrEncoder
unfolding append_bytes put_uint64
write_int64 v e = append_bytes (put_uint64 v) e

unfoldable pub write_uint64 : ℕ → XdrEncoder → XdrEncoder
unfolding append_bytes put_uint64
write_uint64 v e = append_bytes (put_uint64 v) e

-- the bytes up to the next multiple of 4
unfoldable pub padding : ℕ → ℕ
padding n = (4 - n % 4) % 4

-- the loops that append zeros
unfoldable pub write_zeros : ℕ → XdrEncoder → XdrEncoder
unfolding append_bytes
write_zeros zero e = e
write_zeros (suc n) e = write_zeros n (append_bytes (0 ∷ []) e)

-- a length over 32 bits is cut off, as `uint32(len(s))` does
unfoldable pub write_string : Bytes → XdrEncoder → XdrEncoder
unfolding write_uint32 append_bytes padding write_zeros
write_string s e =
    write_zeros (padding (length s)) (append_bytes s (write_uint32 (length s % 2 ^ 32) e))

unfoldable pub write_optional_string : Option Bytes → XdrEncoder → XdrEncoder
unfolding write_uint32 write_string
write_optional_string none e = write_uint32 0 e
write_optional_string (some s) e = write_string s (write_uint32 1 e)

-- `make([]byte, size)` and `copy`: cut off or filled up with zeros
unfoldable pub fit : ℕ → Bytes → Bytes
fit size bytes = take size bytes ++ replicate (size - length bytes) 0

-- The size is not negative: `make` panics for such a size.
unfoldable pub write_fixed_opaque : Bytes → ℕ → XdrEncoder → XdrEncoder
unfolding fit append_bytes padding write_zeros
write_fixed_opaque bytes size e = write_zeros (padding size) (append_bytes (fit size bytes) e)

-- `uuid` has 16 bytes
unfoldable pub write_uuid : Bytes → XdrEncoder → XdrEncoder
unfolding append_bytes
write_uuid uuid e = append_bytes uuid e

unfoldable pub write_bool : Bool → XdrEncoder → XdrEncoder
unfolding write_uint32
write_bool v e = if v then write_uint32 1 e else write_uint32 0 e

unfoldable pub write_uint8 : ℕ → XdrEncoder → XdrEncoder
unfolding write_uint32
write_uint8 v e = write_uint32 v e

unfoldable pub write_uint16 : ℕ → XdrEncoder → XdrEncoder
unfolding write_uint32
write_uint16 v e = write_uint32 v e
