-- ===== src/Rpc/Protocol.antt =====
-- libvirt-sim/internal/rpc/protocol.go: the header of a message, and messages in a stream of bytes.
-- A connection is the bytes that are still to come from it.
use cirrus_sim.Base.{ℕ, if◌then◌else◌, ltb, ◌*◌, ◌+◌, ◌-◌, length, [], ◌%◌, ◌^◌, take, drop, ◌++◌}
use cirrus_sim.Base.Exec.{Exec, Result, ok, err, ◌>>=◌, ◌>>◌, pure, raise_if, or_raise}
use cirrus_sim.Rpc.Words.{Bytes, put_uint32, get_uint32, slice, slice_from}
use cirrus_sim.Rpc.Encoder.{new_encoder, write_uint32, write_int32}
use cirrus_sim.Rpc.Decoder.{ReadError, XdrDecoder, new_decoder, read_uint32, read_int32}

abbrev pub remote_program : ℕ
remote_program = 0x2000_8086

abbrev pub remote_protocol_version : ℕ
remote_protocol_version = 1

abbrev pub header_size : ℕ
header_size = 24

abbrev pub max_message_size : ℕ
max_message_size = 4 * 1024 * 1024

-- `MessageTypeReply`
abbrev pub reply_type : ℕ
reply_type = 1

-- The fields are 32-bit words; `Type` is the field `kind`.
pub record Header : Type 0 where
  pub program : ℕ
  pub version : ℕ
  pub procedure : ℕ
  pub kind : ℕ
  pub serial : ℕ
  pub status : ℕ

pub record Message : Type 0 where
  pub header : Header
  pub body : Bytes

unfoldable pub encode : Header → Bytes
unfolding write_uint32 write_int32 new_encoder
encode h =
    (write_int32 h.status (
      write_uint32 h.serial (
        write_int32 h.kind (
          write_int32 h.procedure
            (write_uint32 h.version (write_uint32 h.program new_encoder)))))).buf

-- The errors, with the length that they report; `crashed` is Go's panic.
pub data ProtocolError : Type 0 where
  header_too_short message_too_short message_too_large : ℕ → ProtocolError
  no_length no_payload crashed : ProtocolError

-- `v, _ := d.Read…()`
unfoldable pub ignored : Exec ReadError XdrDecoder ℕ → Exec ProtocolError XdrDecoder ℕ
ignored m d =
    let (r, d') = m d in
    elim r [
      | ok v ↦ (ok v, d')
      | err e ↦ (elim e [ ReadError.panics ↦ err crashed | other ↦ ok 0 ], d')
    ]

unfoldable pub header_fields : Exec ProtocolError XdrDecoder Header
unfolding ignored read_uint32 read_int32
header_fields = do
  prog ← ignored read_uint32
  vers ← ignored read_uint32
  proc ← ignored read_int32
  typ ← ignored read_int32
  serial ← ignored read_uint32
  status ← ignored read_int32
  pure (record {
    program = prog;
    version = vers;
    procedure = proc;
    kind = typ;
    serial = serial;
    status = status;
  })

unfoldable pub decode_header : Bytes → Result ProtocolError Header
unfolding header_fields new_decoder
decode_header bytes =
    if ltb (length bytes) header_size
    then err (header_too_short (length bytes))
    else (header_fields (new_decoder bytes)).0

-- `io.ReadFull` of `n` bytes, which takes what is there when there is less
unfoldable pub read_full : ProtocolError → ℕ → Exec ProtocolError Bytes Bytes
read_full e n conn = if ltb (length conn) n then (err e, []) else (ok (take n conn), drop n conn)

unfoldable pub of_result : {A : Type 0} → Result ProtocolError A → Exec ProtocolError Bytes A
of_result r conn = (r, conn)

-- the end of `ReadMessage`: the header and the body of what was read
unfoldable pub unframe : Bytes → Exec ProtocolError Bytes Message
unfolding slice slice_from decode_header of_result
unframe payload = do
  head ← or_raise (slice 0 header_size payload) crashed
  header ← of_result (decode_header head)
  body ← or_raise (slice_from header_size payload) crashed
  pure (record { header = header; body = body })

-- `ReadMessage` from the checks of the length on
unfoldable pub read_payload : ℕ → Exec ProtocolError Bytes Message
unfolding read_full unframe
read_payload total_len = do
  raise_if (ltb total_len (4 + header_size)) (message_too_short total_len)
  raise_if (ltb max_message_size total_len) (message_too_large total_len)
  payload ← read_full no_payload (total_len - 4)
  unframe payload

unfoldable pub read_message : Exec ProtocolError Bytes Message
unfolding read_full get_uint32 read_payload
read_message = do
  len_buf ← read_full no_length 4
  total_len ← or_raise (get_uint32 len_buf) crashed
  read_payload total_len

-- the bytes that `WriteMessage` hands to `conn.Write`
unfoldable pub write_message : Message → Bytes
unfolding put_uint32 encode
write_message msg =
    put_uint32 ((4 + (length (encode msg.header) + length msg.body)) % 2 ^ 32)
    ++ (encode msg.header ++ msg.body)

unfoldable pub new_reply : Header → ℕ → Bytes → Message
new_reply req status body = record {
  header = record {
    program = remote_program;
    version = remote_protocol_version;
    procedure = req.procedure;
    kind = reply_type;
    serial = req.serial;
    status = status;
  };
  body = body;
}
