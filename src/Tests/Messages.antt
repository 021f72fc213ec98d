-- ===== src/Tests/Messages.antt =====
-- The encoding of libvirt's RPC messages on concrete data.
use cirrus_sim.Base.{[], ◌∷◌, arith, ◌++◌, ◌≡◌, ◌≢◌, ◌+◌, some, length, ◌≤◌}
use cirrus_sim.Rpc.Words.{Bytes}
use cirrus_sim.Rpc.Encoder.{XdrEncoder, write_optional_string}
use cirrus_sim.Rpc.Decoder.{
  read_optional_string, read_fixed_opaque, read_int32, read_uint32, read_int64, read_uint64,
  read_string, read_uuid,
}
use cirrus_sim.Rpc.RoundTrip.{reader, read_optional_string-write_optional_string}
use cirrus_sim.Rpc.Protocol.{Message, read_message, write_message, crashed, max_message_size}
use cirrus_sim.Rpc.Framing.{read_message-write_message, IsHeader}
use cirrus_sim.Rpc.Safety.{Safe, reads-Safe}
use cirrus_sim.Rpc.Decoder.{panics}
use cirrus_sim.Rpc.Consumed.{read_message-size}
use cirrus_sim.Base.Exec.{err, ok}
use cirrus_sim.Rpc.Crashes.{read_message-Avoids}

abbrev five : Bytes
five = 104 ∷ 101 ∷ 108 ∷ 108 ∷ 111 ∷ []

abbrev before : XdrEncoder
before = record { buf = 0 ∷ 0 ∷ 0 ∷ 7 ∷ [] }

read_optional_string-write_optional_string_example :
    read_optional_string (reader (write_optional_string (some five) before) (1 ∷ 2 ∷ []) before) ≡ (
      ok (some five),
      reader
          (write_optional_string (some five) before)
          (1 ∷ 2 ∷ [])
          (write_optional_string (some five) before),
    )
read_optional_string-write_optional_string_example =
    read_optional_string-write_optional_string (some five) before (1 ∷ 2 ∷ []) (omega arith)

abbrev message : Message
message = record {
  header = record {
    program = 0x2000_8086;
    version = 1;
    procedure = 66;
    kind = 0;
    serial = 4294967295;
    status = 0;
  };
  body = five;
}

message-IsHeader : IsHeader message.header
message-IsHeader = (omega arith, omega arith, omega arith, omega arith, omega arith, omega arith)

read_message-write_message_example :
    read_message (write_message message ++ (9 ∷ [])) ≡ (ok message, 9 ∷ [])
read_message-write_message_example =
    read_message-write_message message (9 ∷ []) message-IsHeader (omega arith)

read_message-size_example :
    (28 + length message.body ≤ max_message_size)
    × (length (write_message message ++ (9 ∷ [])) ≡ 28 + (length message.body + 1))
read_message-size_example =
    read_message-size (write_message message ++ (9 ∷ [])) (9 ∷ []) message
      read_message-write_message_example

reads-Safe_example :
    Safe read_int32
    × Safe read_uint32
    × Safe read_int64
    × Safe read_uint64
    × Safe read_string
    × Safe read_optional_string
    × Safe read_uuid
    × ((read_fixed_opaque 5 (record { bytes = five; pos = 2 })).0 ≢ err panics)
reads-Safe_example = reads-Safe 5 (record { bytes = five; pos = 2 }) (omega arith) (omega arith)

read_message-Avoids_example : (read_message (0 ∷ 0 ∷ 0 ∷ 28 ∷ 1 ∷ [])).0 ≢ err crashed
read_message-Avoids_example = read_message-Avoids (0 ∷ 0 ∷ 0 ∷ 28 ∷ 1 ∷ [])
