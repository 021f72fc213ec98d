-- ===== src/Rpc/Crashes.antt =====
-- Whether `ReadMessage` of libvirt-sim/internal/rpc/protocol.go reaches outside of a slice.
use cirrus_sim.Base.{
  arith, ◌≤◌, ◌≢◌, length, none, ℕ, some, take, ◌-◌, ◌≡◌, nat_eq, refl, ltb, Bool, Option, false,
  true,
}
use cirrus_sim.Rpc.Words.{get_uint32_total, slice_from, slice, Bytes, get_uint32}
use cirrus_sim.Rpc.Decoder.{ReadError, XdrDecoder, read_uint32, read_int32, new_decoder}
use cirrus_sim.Base.Exec.{Exec, err, ◌>>=◌, pure, ◌>>◌, or_raise, raise_if}
use cirrus_sim.Rpc.Protocol.{
  ignored, decode_header, header_fields, crashed, unframe, read_message, read_payload,
  ProtocolError, Header, of_result, read_full, no_length, message_too_short, max_message_size,
  message_too_large, no_payload,
}
use cirrus_sim.Rpc.Consumed.{read_full-size}
use cirrus_sim.Rpc.Safety.{
  Avoids, Safe, bind-Avoids, bind-Avoids_after, read_uint32-Safe, read_int32-Safe,
}

ignored-Avoids : (m : Exec ReadError XdrDecoder ℕ) → Safe m → Avoids crashed (ignored m)
unfolding ignored
ignored-Avoids m h d = ground (arith, h d)

-- the continuations of `header_fields`, from the last field on
abbrev Fields : Type 0
Fields = ℕ → Exec ProtocolError XdrDecoder Header

abbrev with_status : (prog vers proc typ serial : ℕ) → Fields
with_status prog vers proc typ serial status = pure (record {
  program = prog;
  version = vers;
  procedure = proc;
  kind = typ;
  serial = serial;
  status = status;
})

abbrev with_serial : (prog vers proc typ : ℕ) → Fields
with_serial prog vers proc typ n = ignored read_int32 >>= with_status prog vers proc typ n

abbrev with_kind : (prog vers proc : ℕ) → Fields
with_kind prog vers proc typ = ignored read_uint32 >>= with_serial prog vers proc typ

abbrev with_procedure : (prog vers : ℕ) → Fields
with_procedure prog vers proc = ignored read_int32 >>= with_kind prog vers proc

abbrev with_version : (prog : ℕ) → Fields
with_version prog vers = ignored read_int32 >>= with_procedure prog vers

abbrev with_program : Fields
with_program prog = ignored read_uint32 >>= with_version prog

word-Avoids : Avoids crashed (ignored read_uint32)
word-Avoids = ignored-Avoids read_uint32 read_uint32-Safe

int-Avoids : Avoids crashed (ignored read_int32)
int-Avoids = ignored-Avoids read_int32 read_int32-Safe

header_fields-Avoids : Avoids crashed header_fields
unfolding header_fields
header_fields-Avoids = bind-Avoids crashed (ignored read_uint32) with_program word-Avoids (λ p.
    bind-Avoids crashed (ignored read_uint32) (with_version p) word-Avoids (λ v.
      bind-Avoids crashed (ignored read_int32) (with_procedure p v) int-Avoids (λ c.
        bind-Avoids crashed (ignored read_int32) (with_kind p v c) int-Avoids (λ k.
          bind-Avoids crashed (ignored read_uint32) (with_serial p v c k) word-Avoids (λ n.
            bind-Avoids crashed (ignored read_int32) (with_status p v c k n) int-Avoids
              (λ t d. ground arith))))))

decode_header_total : (bytes : Bytes) → decode_header bytes ≢ err crashed
unfolding decode_header
decode_header_total bytes = ground (arith, header_fields-Avoids (new_decoder bytes))

unframe_total : (payload : Bytes) → 24 ≤ length payload → Avoids crashed (unframe payload)
unfolding unframe slice slice_from of_result
unframe_total payload h conn = ground (arith, decode_header_total (take 24 payload))

guard-Avoids :
    {A : Type 0} (c : Bool) (e : ProtocolError) (m : Exec ProtocolError Bytes A)
    → e ≢ crashed
    → (c ≡ false → Avoids crashed m)
    → Avoids crashed (raise_if c e >> m)
guard-Avoids true e m ne h s = ground arith
guard-Avoids false e m ne h s = h refl s

read_full-Avoids :
    {A : Type 0} (e : ProtocolError) (n : ℕ) (k : Bytes → Exec ProtocolError Bytes A)
    → e ≢ crashed
    → ((bs : Bytes) → length bs ≡ n → Avoids crashed (k bs))
    → Avoids crashed (read_full e n >>= k)
unfolding read_full
read_full-Avoids e n k ne h =
    bind-Avoids_after crashed (read_full e n) k (λ conn. ground arith)
      (λ bs conn rest got. h bs (read_full-size e n conn bs rest got).0 rest)

or_raise-Avoids :
    {A B : Type 0} (o : Option A) (k : A → Exec ProtocolError Bytes B)
    → o ≢ none
    → ((a : A) → Avoids crashed (k a))
    → Avoids crashed (or_raise o crashed >>= k)
or_raise-Avoids none k there h s = ground arith
or_raise-Avoids (some a) k there h s = h a s

read_payload-Avoids : (total : ℕ) → Avoids crashed (read_payload total)
unfolding read_payload
read_payload-Avoids total =
    guard-Avoids (ltb total 28) (message_too_short total)
      (raise_if (ltb max_message_size total) (message_too_large total)
        >> (read_full no_payload (total - 4) >>= unframe))
      (λ e. ground arith)
      (λ long.
        guard-Avoids (ltb max_message_size total) (message_too_large total)
          (read_full no_payload (total - 4) >>= unframe) (λ e. ground arith)
          (λ small.
            read_full-Avoids no_payload (total - 4) unframe (λ e. ground arith)
              (λ payload size. unframe_total payload (ground arith))))

-- `ReadMessage` never reaches outside of a slice, whatever the bytes of the connection are: it
-- answers with a message or with an error.
pub read_message-Avoids : (conn : Bytes) → (read_message conn).0 ≢ err crashed
unfolding read_message
read_message-Avoids =
    read_full-Avoids no_length 4 (λ b. or_raise (get_uint32 b) crashed >>= read_payload)
      (λ e. ground arith)
      (λ b size.
        or_raise-Avoids (get_uint32 b) read_payload (get_uint32_total b (omega arith))
          read_payload-Avoids)
