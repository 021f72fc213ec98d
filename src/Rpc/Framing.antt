-- ===== src/Rpc/Framing.antt =====
-- Headers and messages of libvirt-sim/internal/rpc/protocol.go, written and read.
use cirrus_sim.Base.{
  ℕ, arith, [], ◌≡◌, ◌<◌, length, refl, ◌++◌, ◌^◌, some, ◌+◌, ◌≤◌, ◌-◌, ltb, ◌∙◌, ap,
}
use cirrus_sim.Base.ListLaws.{length-append, append_assoc, drop-append, take-append}
use cirrus_sim.Rpc.Words.{Bytes, put_uint32, get_uint32-put_uint32, slice, slice_from, get_uint32}
use cirrus_sim.Rpc.Decoder.{ReadError, XdrDecoder, read_uint32, read_int32, new_decoder}
use cirrus_sim.Rpc.Encoder.{append_bytes, write_uint32, write_int32, new_encoder}
use cirrus_sim.Rpc.At.{at, read_uint32-at, read_int32-at, length-put_uint32}
use cirrus_sim.Rpc.Protocol.{
  Header, Message, encode, decode_header, header_fields, ignored, read_message, write_message,
  read_full, of_result, ProtocolError, max_message_size, no_length, no_payload, read_payload,
  unframe, message_too_large, crashed, message_too_short,
}
use cirrus_sim.Base.Exec.{Exec, ok, err, bind-ok, raise_if, or_raise, ◌>>=◌, ◌>>◌}

-- the fields are 32-bit words
abbrev pub IsHeader : Header → Type 0
IsHeader h =
    (h.program < 2 ^ 32)
    × (h.version < 2 ^ 32)
    × (h.procedure < 2 ^ 32)
    × (h.kind < 2 ^ 32)
    × (h.serial < 2 ^ 32)
    × (h.status < 2 ^ 32)

ignored-ok :
    (m : Exec ReadError XdrDecoder ℕ) (d d' : XdrDecoder) (v : ℕ)
    → m d ≡ (ok v, d')
    → ignored m d ≡ (ok v, d')
unfolding ignored
ignored-ok m d d' v e = ground (arith, e)

-- the next field of a header, in the middle of its bytes
next_uint32 :
    (front : Bytes) (v : ℕ) (rest : Bytes)
    → v < 2 ^ 32
    → ignored read_uint32 (at front (put_uint32 v ++ rest))
      ≡ (ok v, at (front ++ put_uint32 v) rest)
next_uint32 front v rest h = ignored-ok read_uint32 _ _ v (read_uint32-at front v rest h)

next_int32 :
    (front : Bytes) (v : ℕ) (rest : Bytes)
    → v < 2 ^ 32
    → ignored read_int32 (at front (put_uint32 v ++ rest)) ≡ (ok v, at (front ++ put_uint32 v) rest)
next_int32 front v rest h = ignored-ok read_int32 _ _ v (read_int32-at front v rest h)

length-encode : (h : Header) → length (encode h) ≡ 24
unfolding encode write_uint32 write_int32 append_bytes put_uint32 new_encoder
length-encode h = refl

encode-nested :
    (h : Header)
    → encode h
      ≡ put_uint32 h.program
        ++ (put_uint32 h.version
            ++ (put_uint32 h.procedure
                ++ (put_uint32 h.kind ++ (put_uint32 h.serial ++ (put_uint32 h.status ++ [])))))
unfolding encode write_uint32 write_int32 append_bytes put_uint32 new_encoder
encode-nested h = refl

header_fields-at :
    (h : Header) (rest : Bytes)
    → IsHeader h
    → (header_fields (
        at [] (
          put_uint32 h.program
          ++ (put_uint32 h.version
              ++ (put_uint32 h.procedure
                  ++ (put_uint32 h.kind
                      ++ (put_uint32 h.serial ++ (put_uint32 h.status ++ rest)))))))).0
      ≡ ok h
unfolding header_fields
header_fields-at h rest w =
    let p = put_uint32 h.program in
    let v = put_uint32 h.version in
    let c = put_uint32 h.procedure in
    let k = put_uint32 h.kind in
    let s = put_uint32 h.serial in
    let t = put_uint32 h.status in
    let f2 = [] ++ p in
    let f3 = f2 ++ v in
    let f4 = f3 ++ c in
    let f5 = f4 ++ k in
    let f6 = f5 ++ s in
    ground (
      arith,
      next_uint32 [] h.program (v ++ (c ++ (k ++ (s ++ (t ++ rest))))),
      next_uint32 f2 h.version (c ++ (k ++ (s ++ (t ++ rest)))),
      next_int32 f3 h.procedure (k ++ (s ++ (t ++ rest))),
      next_int32 f4 h.kind (s ++ (t ++ rest)),
      next_uint32 f5 h.serial (t ++ rest),
      next_int32 f6 h.status rest,
    )

header_fields-encode : (h : Header) → IsHeader h → (header_fields (new_decoder (encode h))).0 ≡ ok h
unfolding new_decoder
header_fields-encode h w = rw (encode-nested h) (header_fields-at h [] w)

-- A header of 32-bit fields is decoded as it was encoded.
pub decode_header-encode : (h : Header) → IsHeader h → decode_header (encode h) ≡ ok h
unfolding decode_header
decode_header-encode h w = ground (arith, length-encode h, header_fields-encode h w)

read_full-append :
    (e : ProtocolError) (n : ℕ) (xs ys : Bytes)
    → length xs ≡ n
    → read_full e n (xs ++ ys) ≡ (ok xs, ys)
unfolding read_full
read_full-append e n xs ys h =
    ground (arith, length-append xs ys, take-append xs ys, drop-append xs ys)

get_uint32-put_uint32_alone : (v : ℕ) → v < 2 ^ 32 → get_uint32 (put_uint32 v) ≡ some v
unfolding put_uint32
get_uint32-put_uint32_alone v h = get_uint32-put_uint32 v [] h

slice-front : (n : ℕ) (xs ys : Bytes) → length xs ≡ n → slice 0 n (xs ++ ys) ≡ some xs
unfolding slice
slice-front n xs ys h = ground (arith, length-append xs ys, take-append xs ys)

slice_from-front : (n : ℕ) (xs ys : Bytes) → length xs ≡ n → slice_from n (xs ++ ys) ≡ some ys
unfolding slice_from
slice_from-front n xs ys h = ground (arith, length-append xs ys, drop-append xs ys)

abbrev pub message_size : Message → ℕ
message_size msg = 28 + length msg.body

unframe-parts :
    (h : Header) (body conn : Bytes)
    → IsHeader h
    → unframe (encode h ++ body) conn ≡ (ok (record { header = h; body = body }), conn)
unfolding unframe of_result
unframe-parts h body conn w = ground (
  arith,
  slice-front 24 (encode h) body (length-encode h),
  slice_from-front 24 (encode h) body (length-encode h),
  decode_header-encode h w,
)

read_payload-parts :
    (h : Header) (body rest : Bytes)
    → IsHeader h
    → 28 + length body ≤ max_message_size
    → read_payload (28 + length body) ((encode h ++ body) ++ rest)
      ≡ (ok (record { header = h; body = body }), rest)
unfolding read_payload
read_payload-parts h body rest w small =
    let total = 28 + length body in
    bind-ok (raise_if (ltb total 28) (message_too_short total))
      (λ _.
        raise_if (ltb max_message_size total) (message_too_large total)
        >> (read_full no_payload (total - 4) >>= unframe))
      ((encode h ++ body) ++ rest) (ground arith)
    ∙ bind-ok (raise_if (ltb max_message_size total) (message_too_large total))
        (λ _. read_full no_payload (total - 4) >>= unframe) ((encode h ++ body) ++ rest)
        (ground arith)
    ∙ bind-ok (read_full no_payload (total - 4)) unframe ((encode h ++ body) ++ rest) (
        read_full-append no_payload (total - 4) (encode h ++ body) rest
          (omega (arith, length-append (encode h) body, length-encode h)))
    ∙ unframe-parts h body rest w

write_message-parts :
    (msg : Message) (rest : Bytes)
    → message_size msg < 2 ^ 32
    → write_message msg ++ rest
      ≡ put_uint32 (message_size msg) ++ ((encode msg.header ++ msg.body) ++ rest)
unfolding write_message
write_message-parts msg rest small = ground (
  arith,
  length-encode msg.header,
  append_assoc (put_uint32 (message_size msg)) (encode msg.header ++ msg.body) rest,
)

read_message-parts :
    (total : ℕ) (rest : Bytes)
    → total < 2 ^ 32
    → read_message (put_uint32 total ++ rest) ≡ read_payload total rest
unfolding read_message
read_message-parts total rest small =
    bind-ok (read_full no_length 4) (λ b. or_raise (get_uint32 b) crashed >>= read_payload)
      (put_uint32 total ++ rest)
      (read_full-append no_length 4 (put_uint32 total) rest (length-put_uint32 total))
    ∙ bind-ok (or_raise (get_uint32 (put_uint32 total)) crashed) read_payload rest
        (ap (λ o. or_raise o crashed rest) (get_uint32-put_uint32_alone total small))

-- From a stream that begins with a message of at most 4 MiB as it was written, with 32-bit fields in
-- its header, the message is read, and the rest of the stream is left.
pub read_message-write_message :
    (msg : Message) (rest : Bytes)
    → IsHeader msg.header
    → message_size msg ≤ max_message_size
    → read_message (write_message msg ++ rest) ≡ (ok msg, rest)
read_message-write_message msg rest w small =
    rw
      (
        write_message-parts msg rest (omega arith),
        read_message-parts (message_size msg) ((encode msg.header ++ msg.body) ++ rest)
            (omega arith),
      )
      (read_payload-parts msg.header msg.body rest w small)

-- `WriteMessage` has no limit of its own: of a message over 4 MiB and under 4 GiB that it wrote,
-- `ReadMessage` takes the length only and refuses it.
pub read_message_too_large :
    (msg : Message) (rest : Bytes)
    → max_message_size < message_size msg
    → message_size msg < 2 ^ 32
    → read_message (write_message msg ++ rest)
      ≡ (err (message_too_large (message_size msg)), (encode msg.header ++ msg.body) ++ rest)
unfolding read_payload
read_message_too_large msg rest large small =
    rw
      (
        write_message-parts msg rest small,
        read_message-parts (message_size msg) ((encode msg.header ++ msg.body) ++ rest) small,
      )
      (ground arith)
