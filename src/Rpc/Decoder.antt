-- ===== src/Rpc/Decoder.antt =====
-- libvirt-sim/internal/rpc/xdr.go: `XDRDecoder`. The data is in memory, so that its length and the
-- position are far below the largest `int`, and adding a word's size or a `uint32` does not wrap.
use cirrus_sim.Base.Int64.{Int64, slt, add64}
use cirrus_sim.Base.{
  ℕ, String, Option, ◌+◌, ◌||◌, if◌then◌else◌, none, some, ◌==◌, ltb, nat_eq, length,
}
use cirrus_sim.Base.Exec.{Exec, ok, err, ◌>>=◌, ◌>>◌, pure, gets, or_raise, modify}
use cirrus_sim.Rpc.Words.{Bytes, get_uint32, get_uint64, slice, slice_from}
use cirrus_sim.Rpc.Encoder.{padding}

-- `io.ErrUnexpectedEOF`, an error wrapped by a text, and Go's panic
pub data ReadError : Type 0 where
  unexpected_eof : ReadError
  within : String → ReadError → ReadError
  panics : ReadError

pub record XdrDecoder : Type 0 where
  pub bytes : Bytes
  pub pos : ℕ

unfoldable pub new_decoder : Bytes → XdrDecoder
new_decoder bytes = record { bytes = bytes; pos = 0 }

-- `if d.pos+n > len(d.data) { return … }`
unfoldable pub need : String → ℕ → Exec ReadError XdrDecoder (Unit {0})
need what n d =
    (if ltb (length d.bytes) (d.pos + n) then err (within what unexpected_eof) else ok tt, d)

unfoldable pub skip : ℕ → XdrDecoder → XdrDecoder
skip n d = record d { pos = d.pos + n }

-- `binary.BigEndian.Uint32(d.data[d.pos:])`, and `Uint64`
unfoldable pub word32 : XdrDecoder → Option ℕ
unfolding get_uint32 slice_from
word32 d = elim (slice_from d.pos d.bytes) [ none ↦ none | some bs ↦ get_uint32 bs ]

unfoldable pub word64 : XdrDecoder → Option ℕ
unfolding get_uint64 slice_from
word64 d = elim (slice_from d.pos d.bytes) [ none ↦ none | some bs ↦ get_uint64 bs ]

unfoldable pub read_int32 : Exec ReadError XdrDecoder ℕ
unfolding need word32 skip
read_int32 = do need "read int32" 4; w ← gets word32; v ← or_raise w panics; modify (skip 4); pure v

unfoldable pub read_uint32 : Exec ReadError XdrDecoder ℕ
unfolding need word32 skip
read_uint32 = do
  need "read uint32" 4
  w ← gets word32
  v ← or_raise w panics
  modify (skip 4)
  pure v

unfoldable pub read_int64 : Exec ReadError XdrDecoder ℕ
unfolding need word64 skip
read_int64 = do need "read int64" 8; w ← gets word64; v ← or_raise w panics; modify (skip 8); pure v

unfoldable pub read_uint64 : Exec ReadError XdrDecoder ℕ
unfolding need word64 skip
read_uint64 = do
  need "read uint64" 8
  w ← gets word64
  v ← or_raise w panics
  modify (skip 8)
  pure v

-- `if err != nil { return fmt.Errorf("…: %w", err) }`; a panic is not caught
unfoldable pub wrapped :
    {A : Type 0} → String → Exec ReadError XdrDecoder A → Exec ReadError XdrDecoder A
wrapped what m d =
    let (r, d') = m d in
    elim r [
      | ok a ↦ (ok a, d')
      | err e ↦ (err (elim e [ panics ↦ panics | other ↦ within what other ]), d')
    ]

-- `d.data[d.pos : d.pos+n]`, and `d.pos += n`
unfoldable pub read_bytes : ℕ → Exec ReadError XdrDecoder Bytes
unfolding slice skip
read_bytes n = do
  bs ← gets (λ d. slice d.pos (d.pos + n) d.bytes)
  s ← or_raise bs panics
  modify (skip n)
  pure s

unfoldable pub read_string : Exec ReadError XdrDecoder Bytes
unfolding wrapped read_uint32 need read_bytes skip padding
read_string = do
  n ← wrapped "read string length" read_uint32
  need "read string data" n
  s ← read_bytes n
  modify (skip (padding n))
  pure s

unfoldable pub read_optional_string : Exec ReadError XdrDecoder (Option Bytes)
unfolding wrapped read_uint32 read_string
read_optional_string = do
  present ← wrapped "read optional string discriminant" read_uint32
  if present == 0
      then pure none
      else (do s ← wrapped "read optional string value" read_string; pure (some s))

unfoldable pub read_uuid : Exec ReadError XdrDecoder Bytes
unfolding need read_bytes
read_uuid = need "read UUID" 16 >> read_bytes 16

-- The test and the slice of `ReadFixedOpaque`, whose size is an `int`: the sum may wrap around. `make`
-- panics for a negative size, and `make` or the slice where the sum has become negative.
unfoldable pub opaque_error : Int64 → XdrDecoder → Option ReadError
opaque_error size d =
    if slt (length d.bytes) (add64 d.pos size)
    then some (within "read fixed opaque" unexpected_eof)
    else if slt size 0 || slt (add64 d.pos size) 0
    then some panics
    else none

unfoldable pub read_fixed_opaque : Int64 → Exec ReadError XdrDecoder Bytes
unfolding opaque_error read_bytes skip padding
read_fixed_opaque size = do
  refused ← gets (opaque_error size)
  (λ d. (elim refused [ none ↦ ok tt | some e ↦ err e ], d))
  bytes ← read_bytes size
  modify (skip (padding size))
  pure bytes
