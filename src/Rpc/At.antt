-- ===== src/Rpc/At.antt =====
-- A decoder of libvirt-sim/internal/rpc/xdr.go in the middle of its data, and the reads of words and
-- bytes there.
use cirrus_sim.Base.{ℕ, arith, length, ◌++◌, ◌<◌, String, ◌≡◌, ◌^◌, ◌+◌, some, refl, sym}
use cirrus_sim.Base.ListLaws.{length-append, append_assoc, drop-append, take-append}
use cirrus_sim.Rpc.Words.{
  Bytes, put_uint32, put_uint64, get_uint32-put_uint32, get_uint64-put_uint64, slice, slice_from,
}
use cirrus_sim.Rpc.Decoder.{
  XdrDecoder, skip, read_bytes, read_uint32, need, word32, word64, read_uint64, read_int32,
  read_int64,
}
use cirrus_sim.Base.Exec.{ok}

-- `front` is read, `rest` is not.
abbrev pub at : Bytes → Bytes → XdrDecoder
at front rest = record { bytes = front ++ rest; pos = length front }

pub skip-at :
    (front mid rest : Bytes) → skip (length mid) (at front (mid ++ rest)) ≡ at (front ++ mid) rest
unfolding skip
skip-at front mid rest = simp (append_assoc front mid rest, length-append front mid)

slice-at :
    (front mid rest : Bytes)
    → slice (length front) (length front + length mid) (front ++ (mid ++ rest)) ≡ some mid
unfolding slice
slice-at front mid rest = ground (
  arith,
  length-append front (mid ++ rest),
  length-append mid rest,
  drop-append front (mid ++ rest),
  take-append mid rest,
)

slice_from-at : (front rest : Bytes) → slice_from (length front) (front ++ rest) ≡ some rest
unfolding slice_from
slice_from-at front rest = ground (arith, length-append front rest, drop-append front rest)

pub need-at :
    (what : String) (n : ℕ) (front mid rest : Bytes)
    → length mid ≡ n
    → need what n (at front (mid ++ rest)) ≡ (ok tt, at front (mid ++ rest))
unfolding need
need-at what n front mid rest h =
    ground (arith, length-append front (mid ++ rest), length-append mid rest)

pub length-put_uint32 : (v : ℕ) → length (put_uint32 v) ≡ 4
unfolding put_uint32
length-put_uint32 v = refl

pub length-put_uint64 : (v : ℕ) → length (put_uint64 v) ≡ 8
unfolding put_uint64
length-put_uint64 v = refl

pub read_bytes-at :
    (front mid rest : Bytes)
    → read_bytes (length mid) (at front (mid ++ rest)) ≡ (ok mid, at (front ++ mid) rest)
unfolding read_bytes
read_bytes-at front mid rest = rw (slice-at front mid rest, skip-at front mid rest) refl

word32-at :
    (front : Bytes) (v : ℕ) (rest : Bytes)
    → v < 2 ^ 32
    → word32 (at front (put_uint32 v ++ rest)) ≡ some v
unfolding word32
word32-at front v rest h =
    ground (arith, slice_from-at front (put_uint32 v ++ rest), get_uint32-put_uint32 v rest h)

word64-at :
    (front : Bytes) (v : ℕ) (rest : Bytes)
    → v < 2 ^ 64
    → word64 (at front (put_uint64 v ++ rest)) ≡ some v
unfolding word64
word64-at front v rest h =
    ground (arith, slice_from-at front (put_uint64 v ++ rest), get_uint64-put_uint64 v rest h)

skip4-at :
    (front : Bytes) (v : ℕ) (rest : Bytes)
    → skip 4 (at front (put_uint32 v ++ rest)) ≡ at (front ++ put_uint32 v) rest
skip4-at front v rest = rw (sym (length-put_uint32 v)) (skip-at front (put_uint32 v) rest)

pub read_uint32-at :
    (front : Bytes) (v : ℕ) (rest : Bytes)
    → v < 2 ^ 32
    → read_uint32 (at front (put_uint32 v ++ rest)) ≡ (ok v, at (front ++ put_uint32 v) rest)
unfolding read_uint32
read_uint32-at front v rest h = ground (
  arith,
  need-at "read uint32" 4 front (put_uint32 v) rest (length-put_uint32 v),
  word32-at front v rest h,
  skip4-at front v rest,
)

pub read_int32-at :
    (front : Bytes) (v : ℕ) (rest : Bytes)
    → v < 2 ^ 32
    → read_int32 (at front (put_uint32 v ++ rest)) ≡ (ok v, at (front ++ put_uint32 v) rest)
unfolding read_int32
read_int32-at front v rest h = ground (
  arith,
  need-at "read int32" 4 front (put_uint32 v) rest (length-put_uint32 v),
  word32-at front v rest h,
  skip4-at front v rest,
)

skip8-at :
    (front : Bytes) (v : ℕ) (rest : Bytes)
    → skip 8 (at front (put_uint64 v ++ rest)) ≡ at (front ++ put_uint64 v) rest
skip8-at front v rest = rw (sym (length-put_uint64 v)) (skip-at front (put_uint64 v) rest)

pub read_uint64-at :
    (front : Bytes) (v : ℕ) (rest : Bytes)
    → v < 2 ^ 64
    → read_uint64 (at front (put_uint64 v ++ rest)) ≡ (ok v, at (front ++ put_uint64 v) rest)
unfolding read_uint64
read_uint64-at front v rest h = ground (
  arith,
  need-at "read uint64" 8 front (put_uint64 v) rest (length-put_uint64 v),
  word64-at front v rest h,
  skip8-at front v rest,
)

pub read_int64-at :
    (front : Bytes) (v : ℕ) (rest : Bytes)
    → v < 2 ^ 64
    → read_int64 (at front (put_uint64 v ++ rest)) ≡ (ok v, at (front ++ put_uint64 v) rest)
unfolding read_int64
read_int64-at front v rest h = ground (
  arith,
  need-at "read int64" 8 front (put_uint64 v) rest (length-put_uint64 v),
  word64-at front v rest h,
  skip8-at front v rest,
)
