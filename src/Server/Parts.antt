-- ===== src/Server/Parts.antt =====
-- libvirt-sim/internal/rpc/handlers.go: what the handlers share. A handler takes the body of a call and
-- gives the body of its reply; the decoder of a call is its own, so what is read and dropped at the end
-- of a body is left out.
use cirrus_sim.Rpc.Decoder.{
  new_decoder, read_string, read_uuid, read_int32, ReadError, XdrDecoder, panics, read_uint64,
}
use cirrus_sim.Libvirt.Types.{
  Error, Int32, Action, Domain, operation_invalid, no_domain, operation_denied,
  migration_in_progress,
}
use cirrus_sim.Server.Types.{
  Session, Externals, vir_err_no_domain, vir_err_operation_invalid, vir_err_operation_denied,
  vir_err_internal_error, Serve, World, Problem, refused, refused_by_store, vir_from_qemu, panicked,
  unreadable,
}
use cirrus_sim.Base.Exec.{Exec, ok, err, ◌>>=◌, pure}
use cirrus_sim.Libvirt.Store.{get_domain}
use cirrus_sim.Rpc.Encoder.{write_int32, new_encoder, write_optional_string}
use cirrus_sim.Server.Events.{encode_domain_ref}
use cirrus_sim.Rpc.Words.{Bytes}
use cirrus_sim.Libvirt.Domains.{uuid_string}
use cirrus_sim.Base.{none, some, ℕ}

module _ {R A : Type 0} where
  -- `if err != nil { return h.errorReply(msg, code, …) }` after reads
  unfoldable pub reading : Int32 → Exec ReadError XdrDecoder A → Bytes → Serve R A
  reading code m body w = elim (m (new_decoder body)).0 [
    | ok a ↦ (ok a, w)
    | err e ↦ (err (elim e [ panics ↦ panicked | other ↦ refused code (unreadable other) ]), w)
  ]

  -- the same after a call of the store, whose error gives the code
  unfoldable pub store_call : (Error → Int32) → Action R A → Serve R A
  store_call code m w =
      let (r, s) = m w.store in
      elim r [
        | ok a ↦ (ok a, record w { store = s })
        | err e ↦ (err (refused (code e) (refused_by_store e)), record w { store = s })
      ]

-- the codes that the handlers give for the errors of the store
unfoldable pub always : Int32 → Error → Int32
always code e = code

unfoldable pub invalid_code : Error → Int32
invalid_code operation_invalid = vir_err_operation_invalid
invalid_code _ = vir_err_internal_error

unfoldable pub denied_code : Error → Int32
denied_code operation_denied = vir_err_operation_denied
denied_code operation_invalid = vir_err_operation_invalid
denied_code _ = vir_err_internal_error

unfoldable pub perform_code : Error → Int32
perform_code no_domain = vir_err_no_domain
perform_code operation_invalid = vir_err_operation_invalid
perform_code migration_in_progress = vir_err_operation_invalid
perform_code _ = vir_err_internal_error

unfoldable pub missing_code : Error → Int32
missing_code no_domain = vir_err_no_domain
missing_code operation_invalid = vir_err_operation_invalid
missing_code _ = vir_err_internal_error

-- the fields of a domain reference; only the identifier is kept
unfoldable pub read_reference : Exec ReadError XdrDecoder Bytes
read_reference = do _ ← read_string; uuid ← read_uuid; _ ← read_int32; pure uuid

-- a domain reference, and the speed
unfoldable pub read_speed : Exec ReadError XdrDecoder ℕ
read_speed = do _ ← read_reference; read_uint64

module _ {R : Type 0} (h : Session) where
  -- `readDomainRef`, with the reply of its callers
  unfoldable pub read_domain_ref : Bytes → Serve R Domain
  read_domain_ref body = do
    uuid ← reading vir_err_no_domain read_reference body
    store_call (always vir_err_no_domain) (get_domain h.host_id (uuid_string uuid))

  -- The domain that a pointer from the store shows now. A domain is held under its own identifier.
  unfoldable pub pointed_to : Domain → World R → Domain
  pointed_to d w = elim (get_domain h.host_id (uuid_string d.uuid) w.store).0 [
    | ok now ↦ now
    | err _ ↦ d
  ]

module _ (X : Externals) where
  -- `domainReply`
  unfoldable pub domain_reply : Domain → Bytes
  domain_reply d = (encode_domain_ref X d new_encoder).buf

  -- the body of `errorReply`
  unfoldable pub error_body : Int32 → Problem → Bytes
  error_body code p =
      (write_optional_string none (
        write_int32 0 (
          write_int32 0 (
            write_optional_string none (
              write_optional_string none (
                write_optional_string none (
                  write_optional_string none (
                    write_int32 2 (
                      write_optional_string (some (X.describe p))
                        (write_int32 vir_from_qemu (write_int32 code new_encoder))))))))))).buf
