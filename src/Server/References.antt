-- ===== src/Server/References.antt =====
-- A domain reference of libvirt-sim/internal/rpc/handlers.go, as `encodeDomainRef` writes it and
-- `readDomainRef` reads it.
use cirrus_sim.Server.Types.{Externals}
use cirrus_sim.Rpc.Decoder.{read_uuid, new_decoder}
use cirrus_sim.Rpc.Words.{Bytes, put_uint32}
use cirrus_sim.Libvirt.Types.{Domain}
use cirrus_sim.Server.Events.{encode_domain_ref}
use cirrus_sim.Base.{length, ◌≡◌, ◌++◌, ◌<◌, ◌^◌, [], arith, ap, ◌∙◌}
use cirrus_sim.Server.Parts.{read_reference}
use cirrus_sim.Rpc.RoundTrip.{string_bytes, read_string-at, write_string-buf}
use cirrus_sim.Rpc.At.{at, need-at, read_int32-at, read_bytes-at}
use cirrus_sim.Rpc.Encoder.{write_int32, write_uuid, append_bytes, XdrEncoder, new_encoder}
use cirrus_sim.Base.Exec.{ok}
use cirrus_sim.Base.ListLaws.{append_assoc}

-- what a reference can hold: a name of less than 2 ^ 32 bytes, 16 bytes and 32 bits
pub record IsReference (X : Externals) (d : Domain) : Type 0 where
  pub name_fits : length (X.bytes d.name) < 2 ^ 32
  pub uuid_size : length d.uuid ≡ 16
  pub id_fits : d.id < 2 ^ 32

read_uuid-at :
    (front uuid rest : Bytes)
    → length uuid ≡ 16
    → read_uuid (at front (uuid ++ rest)) ≡ (ok uuid, at (front ++ uuid) rest)
unfolding read_uuid
read_uuid-at front uuid rest size =
    ground (arith, need-at "read UUID" 16 front uuid rest size, read_bytes-at front uuid rest)

module _ (X : Externals) (d : Domain) where
  pub encode_domain_ref-buf :
      (e : XdrEncoder)
      → IsReference X d
      → (encode_domain_ref X d e).buf
        ≡ e.buf ++ (string_bytes (X.bytes d.name) ++ (d.uuid ++ put_uint32 d.id))
  unfolding encode_domain_ref write_int32 write_uuid append_bytes
  encode_domain_ref-buf e is =
      let name = string_bytes (X.bytes d.name) in
      ap (λ b. (b ++ d.uuid) ++ put_uint32 d.id) (write_string-buf (X.bytes d.name) e is.name_fits)
      ∙ append_assoc (e.buf ++ name) d.uuid (put_uint32 d.id)
      ∙ append_assoc e.buf name (d.uuid ++ put_uint32 d.id)

  read_reference-bytes :
      (rest : Bytes)
      → IsReference X d
      → (read_reference
          (at [] (string_bytes (X.bytes d.name) ++ (d.uuid ++ (put_uint32 d.id ++ rest))))).0
        ≡ ok d.uuid
  unfolding read_reference
  read_reference-bytes rest is =
      let name = string_bytes (X.bytes d.name) in
      ground (
        arith,
        read_string-at [] (X.bytes d.name) (d.uuid ++ (put_uint32 d.id ++ rest)),
        read_uuid-at name d.uuid (put_uint32 d.id ++ rest),
        read_int32-at (name ++ d.uuid) d.id rest,
      )

  -- A domain reference is read back, with anything behind it, as the identifier that it was written
  -- from, where the name has less than 2 ^ 32 bytes, the identifier has 16 and the number 32 bits.
  pub read_reference-encode_domain_ref :
      (rest : Bytes)
      → IsReference X d
      → (read_reference (new_decoder ((encode_domain_ref X d new_encoder).buf ++ rest))).0
        ≡ ok d.uuid
  unfolding new_decoder new_encoder
  read_reference-encode_domain_ref rest is =
      let name = string_bytes (X.bytes d.name) in
      rw
        (
          encode_domain_ref-buf new_encoder is,
          append_assoc name (d.uuid ++ put_uint32 d.id) rest,
          append_assoc d.uuid (put_uint32 d.id) rest,
        )
        (read_reference-bytes rest is)
