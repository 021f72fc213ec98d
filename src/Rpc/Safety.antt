-- ===== src/Rpc/Safety.antt =====
-- Whether the decoder of libvirt-sim/internal/rpc/xdr.go reaches outside of a slice.
use cirrus_sim.Base.{
  arith, String, ◌+◌, ◌<◌, ltb, ◌≤◌, ◌≢◌, length, none, drop, ℕ, some, take, ◌-◌, if◌then◌else◌,
  ◌≡◌, ◌==◌, nat_eq, refl, ap,
}
use cirrus_sim.Base.ListLaws.{length-drop}
use cirrus_sim.Rpc.Words.{get_uint64, get_uint32_total, slice_from, slice, Bytes}
use cirrus_sim.Rpc.Decoder.{
  ReadError, XdrDecoder, panics, need, word32, word64, wrapped, read_uint32, read_int32,
  read_uint64, read_int64, read_string, read_optional_string, read_fixed_opaque, read_bytes,
  opaque_error, unexpected_eof, within, read_uuid, skip,
}
use cirrus_sim.Base.Exec.{Exec, err, ◌>>=◌, Result, pure, ◌>>◌, modify, ok}
use cirrus_sim.Base.Int64.{Int64, two63, slt, add64}
use cirrus_sim.Rpc.Encoder.{padding}

-- `m` never gives the error `x`.
abbrev pub Avoids : {E S A : Type 0} → E → Exec E S A → Type 0
Avoids {S = S} x m = (s : S) → (m s).0 ≢ err x

abbrev pub Safe : {A : Type 0} → Exec ReadError XdrDecoder A → Type 0
Safe m = Avoids panics m

word32_total : (d : XdrDecoder) → d.pos + 4 ≤ length d.bytes → word32 d ≢ none
unfolding word32 slice_from
word32_total d h = ground (arith, length-drop d.pos d.bytes, get_uint32_total (drop d.pos d.bytes))

word64_total : (d : XdrDecoder) → d.pos + 8 ≤ length d.bytes → word64 d ≢ none
unfolding word64 slice_from get_uint64
word64_total d h = ground (
  arith,
  length-drop d.pos d.bytes,
  length-drop 4 (drop d.pos d.bytes),
  get_uint32_total (drop d.pos d.bytes),
  get_uint32_total (drop 4 (drop d.pos d.bytes)),
)

pub read_uint32-Safe : Safe read_uint32
unfolding read_uint32 need
read_uint32-Safe d = ground (arith, word32_total d)

pub read_int32-Safe : Safe read_int32
unfolding read_int32 need
read_int32-Safe d = ground (arith, word32_total d)

pub read_uint64-Safe : Safe read_uint64
unfolding read_uint64 need
read_uint64-Safe d = ground (arith, word64_total d)

pub read_int64-Safe : Safe read_int64
unfolding read_int64 need
read_int64-Safe d = ground (arith, word64_total d)

wrapped-Safe :
    {A : Type 0} (what : String) (m : Exec ReadError XdrDecoder A) → Safe m → Safe (wrapped what m)
unfolding wrapped
wrapped-Safe what m h d = ground (arith, h d)

-- The second action may use what the first one did.
pub bind-Avoids_after :
    {E S A B : Type 0} (x : E) (m : Exec E S A) (f : A → Exec E S B)
    → Avoids x m
    → ((a : A) (s s' : S) → m s ≡ (ok a, s') → (f a s').0 ≢ err x)
    → Avoids x (m >>= f)
bind-Avoids_after {E = E} {S = S} {A = A} {B = B} x m f h k s = of (m s).0 refl
  where
    of :
        (r : Result E A)
        → (m s).0 ≡ r
        → (elim r as (λ _. Result E B × S) [ ok a ↦ f a (m s).1 | err y ↦ (err y, (m s).1) ]).0
          ≢ err x
    of (ok a) e = k a s (m s).1 (ap (λ r. (r, (m s).1)) e)
    of (err y) e = ground (arith, h s)

pub bind-Avoids :
    {E S A B : Type 0} (x : E) (m : Exec E S A) (f : A → Exec E S B)
    → Avoids x m
    → ((a : A) → Avoids x (f a))
    → Avoids x (m >>= f)
bind-Avoids x m f h k = bind-Avoids_after x m f h (λ a s s' e. k a s')

-- the read of `n` bytes behind its check
guarded-Safe :
    {A : Type 0} (what : String) (n : ℕ) (k : Bytes → Exec ReadError XdrDecoder A)
    → ((s : Bytes) → Safe (k s))
    → Safe (need what n >> (read_bytes n >>= k))
unfolding need read_bytes slice
guarded-Safe what n k h d =
    ground (arith, h (take (d.pos + n - d.pos) (drop d.pos d.bytes)) (skip n d))

padded-Safe : (n : ℕ) (s : Bytes) → Safe (modify (skip n) >> pure s)
padded-Safe n s d = ground arith

pub read_string-Safe : Safe read_string
unfolding read_string
read_string-Safe =
    bind-Avoids panics (wrapped "read string length" read_uint32)
      (λ n.
        need "read string data" n >> (read_bytes n >>= λ s. modify (skip (padding n)) >> pure s))
      (wrapped-Safe "read string length" read_uint32 read_uint32-Safe)
      (λ n.
        guarded-Safe "read string data" n (λ s. modify (skip (padding n)) >> pure s)
          (padded-Safe (padding n)))

pub read_optional_string-Safe : Safe read_optional_string
unfolding read_optional_string
read_optional_string-Safe =
    bind-Avoids panics (wrapped "read optional string discriminant" read_uint32)
      (λ present.
        if present == 0
        then pure none
        else (wrapped "read optional string value" read_string >>= λ s. pure (some s)))
      (wrapped-Safe "read optional string discriminant" read_uint32 read_uint32-Safe)
      (λ present d. ground (arith, present_value d))
  where
    present_value : Safe (wrapped "read optional string value" read_string >>= λ s. pure (some s))
    present_value =
        bind-Avoids panics (wrapped "read optional string value" read_string) (λ s. pure (some s))
          (wrapped-Safe "read optional string value" read_string read_string-Safe)
          (λ s d'. ground arith)

-- With a size that is not negative and a sum that does not wrap around, the test is the plain one.
pub opaque_error-fits :
    (size : Int64) (d : XdrDecoder)
    → d.pos + size < two63
    → length d.bytes < two63
    → opaque_error size d ≡ (
        if ltb (length d.bytes) (d.pos + size)
        then some (within "read fixed opaque" unexpected_eof)
        else none)
unfolding opaque_error slt add64
opaque_error-fits size d h hl = ground arith

read_fixed_opaque-ne-panics :
    (size : Int64) (d : XdrDecoder)
    → d.pos + size < two63
    → length d.bytes < two63
    → (read_fixed_opaque size d).0 ≢ err panics
unfolding read_fixed_opaque read_bytes slice
read_fixed_opaque-ne-panics size d h hl = ground (arith, opaque_error-fits size d h hl)

pub read_uuid-Safe : Safe read_uuid
unfolding read_uuid need read_bytes slice
read_uuid-Safe d = ground arith

-- No read of the decoder reaches outside of its data or panics, whatever the data is and wherever it
-- stands, a position behind the end included; for the read of opaque data the size is not negative,
-- and neither the end of what is read nor the length of the data passes the largest `int`.
pub reads-Safe :
    (size : Int64) (d : XdrDecoder)
    → d.pos + size < two63
    → length d.bytes < two63
    → Safe read_int32
      × Safe read_uint32
      × Safe read_int64
      × Safe read_uint64
      × Safe read_string
      × Safe read_optional_string
      × Safe read_uuid
      × ((read_fixed_opaque size d).0 ≢ err panics)
reads-Safe size d h hl = (
  read_int32-Safe,
  read_uint32-Safe,
  read_int64-Safe,
  read_uint64-Safe,
  read_string-Safe,
  read_optional_string-Safe,
  read_uuid-Safe,
  read_fixed_opaque-ne-panics size d h hl,
)
