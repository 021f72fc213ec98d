-- ===== src/Rpc/RoundTrip.antt =====
-- What the encoder of libvirt-sim/internal/rpc/xdr.go writes, and how the decoder reads it back.
use cirrus_sim.Base.{
  ℕ, arith, ◌++◌, Option, length, ◌≡◌, ◌∙◌, ◌<◌, some, sym, none, ◌^◌, suc, ◌∷◌, [], zero, String,
  ◌%◌, ◌+◌, refl, take, ◌-◌, ap,
}
use cirrus_sim.Base.ListLaws.{
  length-append, append_assoc, append_nil, replicate, length-replicate, length-take,
}
use cirrus_sim.Rpc.Words.{Bytes, put_uint32}
use cirrus_sim.Rpc.Encoder.{
  XdrEncoder, append_bytes, write_uint32, write_string, write_optional_string, write_fixed_opaque,
  write_zeros, padding, fit,
}
use cirrus_sim.Rpc.Decoder.{
  XdrDecoder, ReadError, skip, read_uint32, read_string, read_optional_string, read_fixed_opaque,
  wrapped,
}
use cirrus_sim.Rpc.At.{at, skip-at, need-at, read_bytes-at, read_uint32-at}
use cirrus_sim.Base.Exec.{ok, Exec}
use cirrus_sim.Base.Int64.{two63}
use cirrus_sim.Rpc.Safety.{opaque_error-fits}

-- the bytes of a string: its length, itself and the padding
abbrev pub string_bytes : Bytes → Bytes
string_bytes s = put_uint32 (length s) ++ (s ++ replicate (padding (length s)) 0)

abbrev pub optional_bytes : Option Bytes → Bytes
optional_bytes none = put_uint32 0
optional_bytes (some s) = put_uint32 1 ++ string_bytes s

abbrev pub optional_length : Option Bytes → ℕ
optional_length none = 0
optional_length (some s) = length s

abbrev pub opaque_bytes : Bytes → ℕ → Bytes
opaque_bytes bytes size = fit size bytes ++ replicate (padding size) 0

write_zeros-buf : (n : ℕ) (e : XdrEncoder) → (write_zeros n e).buf ≡ e.buf ++ replicate n 0
unfolding write_zeros append_bytes
write_zeros-buf zero e = sym (append_nil e.buf)
write_zeros-buf (suc n) e =
    write_zeros-buf n (append_bytes (0 ∷ []) e) ∙ append_assoc e.buf (0 ∷ []) (replicate n 0)

pub write_string-buf :
    (s : Bytes) (e : XdrEncoder)
    → length s < 2 ^ 32
    → (write_string s e).buf ≡ e.buf ++ string_bytes s
unfolding write_string append_bytes write_uint32
write_string-buf s e h = ground (
  arith,
  write_zeros-buf (padding (length s)) (append_bytes s (write_uint32 (length s % 2 ^ 32) e)),
  append_assoc (e.buf ++ put_uint32 (length s)) s (replicate (padding (length s)) 0),
  append_assoc e.buf (put_uint32 (length s)) (s ++ replicate (padding (length s)) 0),
)

write_optional_string-buf :
    (s : Option Bytes) (e : XdrEncoder)
    → optional_length s < 2 ^ 32
    → (write_optional_string s e).buf ≡ e.buf ++ optional_bytes s
unfolding write_optional_string append_bytes write_uint32
write_optional_string-buf none e h = refl
write_optional_string-buf (some s) e h =
    write_string-buf s (write_uint32 1 e) h ∙ append_assoc e.buf (put_uint32 1) (string_bytes s)

write_fixed_opaque-buf :
    (bytes : Bytes) (size : ℕ) (e : XdrEncoder)
    → (write_fixed_opaque bytes size e).buf ≡ e.buf ++ opaque_bytes bytes size
unfolding write_fixed_opaque append_bytes
write_fixed_opaque-buf bytes size e =
    write_zeros-buf (padding size) (append_bytes (fit size bytes) e)
    ∙ append_assoc e.buf (fit size bytes) (replicate (padding size) 0)

wrapped-ok :
    {A : Type 0} (what : String) (m : Exec ReadError XdrDecoder A) (d d' : XdrDecoder) (a : A)
    → m d ≡ (ok a, d')
    → wrapped what m d ≡ (ok a, d')
unfolding wrapped
wrapped-ok what m d d' a e = ground (arith, e)

skip-zeros :
    (n : ℕ) (front rest : Bytes)
    → skip n (at front (replicate n 0 ++ rest)) ≡ at (front ++ replicate n 0) rest
skip-zeros n front rest =
    ground (arith, skip-at front (replicate n 0) rest, length-replicate {A = ℕ} n 0)

read_string-nested :
    (front s rest : Bytes)
    → length s < 2 ^ 32
    → read_string
        (at front (put_uint32 (length s) ++ (s ++ (replicate (padding (length s)) 0 ++ rest))))
      ≡ (
        ok s,
        at (((front ++ put_uint32 (length s)) ++ s) ++ replicate (padding (length s)) 0) rest,
      )
unfolding read_string
read_string-nested front s rest h =
    let pad : Bytes = replicate (padding (length s)) 0 in
    ground (
      arith,
      wrapped-ok "read string length" read_uint32
          (at front (put_uint32 (length s) ++ (s ++ (pad ++ rest))))
          (at (front ++ put_uint32 (length s)) (s ++ (pad ++ rest))) (length s)
          (read_uint32-at front (length s) (s ++ (pad ++ rest)) h),
      need-at "read string data" (length s) (front ++ put_uint32 (length s)) s (pad ++ rest) refl,
      read_bytes-at (front ++ put_uint32 (length s)) s (pad ++ rest),
      skip-zeros (padding (length s)) ((front ++ put_uint32 (length s)) ++ s) rest,
    )

pub read_string-at :
    (front s rest : Bytes)
    → length s < 2 ^ 32
    → read_string (at front (string_bytes s ++ rest)) ≡ (ok s, at (front ++ string_bytes s) rest)
read_string-at front s rest h =
    let pad : Bytes = replicate (padding (length s)) 0 in
    let word = put_uint32 (length s) in
    rw
      (
        append_assoc word (s ++ pad) rest,
        append_assoc s pad rest,
        sym (append_assoc front word (s ++ pad)),
        sym (append_assoc (front ++ word) s pad),
      )
      (read_string-nested front s rest h)

pub read_optional_string-at :
    (front : Bytes) (s : Option Bytes) (rest : Bytes)
    → optional_length s < 2 ^ 32
    → read_optional_string (at front (optional_bytes s ++ rest))
      ≡ (ok s, at (front ++ optional_bytes s) rest)
unfolding read_optional_string
read_optional_string-at front none rest h = ground (
  arith,
  wrapped-ok "read optional string discriminant" read_uint32 (at front (put_uint32 0 ++ rest))
      (at (front ++ put_uint32 0) rest) 0 (read_uint32-at front 0 rest (omega arith)),
)
read_optional_string-at front (some s) rest h = ground (
  arith,
  append_assoc (put_uint32 1) (string_bytes s) rest,
  append_assoc front (put_uint32 1) (string_bytes s),
  wrapped-ok "read optional string discriminant" read_uint32
      (at front (put_uint32 1 ++ (string_bytes s ++ rest)))
      (at (front ++ put_uint32 1) (string_bytes s ++ rest)) 1
      (read_uint32-at front 1 (string_bytes s ++ rest) (omega arith)),
  wrapped-ok "read optional string value" read_string
      (at (front ++ put_uint32 1) (string_bytes s ++ rest))
      (at ((front ++ put_uint32 1) ++ string_bytes s) rest) s
      (read_string-at (front ++ put_uint32 1) s rest h),
)

length-fit : (size : ℕ) (bytes : Bytes) → length (fit size bytes) ≡ size
unfolding fit
length-fit size bytes = omega (
  arith,
  length-append (take size bytes) (replicate (size - length bytes) 0),
  length-replicate {A = ℕ} (size - length bytes) 0,
  length-take size bytes,
)

read_fixed_opaque-at :
    (front bytes : Bytes) (size : ℕ) (rest : Bytes)
    → length (front ++ (opaque_bytes bytes size ++ rest)) < two63
    → read_fixed_opaque size (at front (opaque_bytes bytes size ++ rest))
      ≡ (ok (fit size bytes), at (front ++ opaque_bytes bytes size) rest)
unfolding read_fixed_opaque
read_fixed_opaque-at front bytes size rest h =
    let pad : Bytes = replicate (padding size) 0 in
    let all = length-append front (opaque_bytes bytes size ++ rest) in
    let mid = length-append (opaque_bytes bytes size) rest in
    let own = length-append (fit size bytes) pad in
    let fitted = length-fit size bytes in
    let fits : length front + size < two63 = omega arith in
    ground (
      arith,
      opaque_error-fits size (at front (opaque_bytes bytes size ++ rest)) fits h,
      append_assoc (fit size bytes) pad rest,
      append_assoc front (fit size bytes) pad,
      read_bytes-at front (fit size bytes) (pad ++ rest),
      length-fit size bytes,
      skip-zeros (padding size) (front ++ fit size bytes) rest,
    )

-- the decoder of what `w` has, and `rest` behind it, that has read what `e` has
abbrev pub reader : XdrEncoder → Bytes → XdrEncoder → XdrDecoder
reader w rest e = record { bytes = w.buf ++ rest; pos = length e.buf }

reader-read :
    {A : Type 0} (read : Exec ReadError XdrDecoder A) (e w : XdrEncoder) (mid rest : Bytes) (a : A)
    → w.buf ≡ e.buf ++ mid
    → read (at e.buf (mid ++ rest)) ≡ (ok a, at (e.buf ++ mid) rest)
    → read (reader w rest e) ≡ (ok a, reader w rest w)
reader-read read e w mid rest a written h =
    rw (written, append_assoc e.buf mid rest)
      (h
        ∙ ap (λ bs. (ok a, record { bytes = bs; pos = length (e.buf ++ mid) }))
            (append_assoc e.buf mid rest))

-- A string of less than 2 ^ 32 bytes is read back as it was written, behind anything written before
-- and in front of anything that follows, and the decoder then stands at the end of what was written.
pub read_string-write_string :
    (s : Bytes) (e : XdrEncoder) (rest : Bytes)
    → length s < 2 ^ 32
    → read_string (reader (write_string s e) rest e)
      ≡ (ok s, reader (write_string s e) rest (write_string s e))
read_string-write_string s e rest h =
    reader-read read_string e (write_string s e) (string_bytes s) rest s (write_string-buf s e h)
      (read_string-at e.buf s rest h)

-- An optional string, of less than 2 ^ 32 bytes where it is there, is read back as it was written,
-- and the decoder then stands at the end of what was written.
pub read_optional_string-write_optional_string :
    (s : Option Bytes) (e : XdrEncoder) (rest : Bytes)
    → optional_length s < 2 ^ 32
    → read_optional_string (reader (write_optional_string s e) rest e)
      ≡ (ok s, reader (write_optional_string s e) rest (write_optional_string s e))
read_optional_string-write_optional_string s e rest h =
    reader-read read_optional_string e (write_optional_string s e) (optional_bytes s) rest s
      (write_optional_string-buf s e h) (read_optional_string-at e.buf s rest h)

-- Opaque data of a fixed size is read back cut off at that size or filled up with zeros to it, and
-- the decoder then stands at the end of what was written.
pub read_fixed_opaque-write_fixed_opaque :
    (bytes : Bytes) (size : ℕ) (e : XdrEncoder) (rest : Bytes)
    → length (e.buf ++ (opaque_bytes bytes size ++ rest)) < two63
    → read_fixed_opaque size (reader (write_fixed_opaque bytes size e) rest e) ≡ (
      ok (fit size bytes),
      reader (write_fixed_opaque bytes size e) rest (write_fixed_opaque bytes size e),
    )
read_fixed_opaque-write_fixed_opaque bytes size e rest h =
    reader-read (read_fixed_opaque size) e (write_fixed_opaque bytes size e)
      (opaque_bytes bytes size) rest (fit size bytes) (write_fixed_opaque-buf bytes size e)
      (read_fixed_opaque-at e.buf bytes size rest h)
