-- ===== src/Server/Handlers.antt =====
-- Handlers of libvirt-sim/internal/rpc with several steps that can fail.
use cirrus_sim.Base.{Option, String, Option-cases, arith, inl, some, inr, nat_eq, none, not, []}
use cirrus_sim.Server.Types.{
  Externals, Session, Problem, Serve, panicked, refused, vir_err_internal_error, bad_uuid, bad_xml,
  vir_err_no_domain, source_not_found, not_registered,
}
use cirrus_sim.Libvirt.Types.{Int32, Domain, Time}
use cirrus_sim.Server.Migrations.{
  handle_migrate_prepare, handle_event_deregister_any, session_client, handle_event_register_any,
  required_uuid, read_params, put_client, find_source, prepare_found,
}
use cirrus_sim.Server.Queries.{handle_lookup_by_name, handle_lookup_by_uuid}
use cirrus_sim.Server.Domains.{handle_domain_define_xml, define_parsed, defined_from}
use cirrus_sim.Rpc.Words.{Bytes}
use cirrus_sim.Server.Answers.{
  Answers, required_uuid-Answers, read_domain_ref-Answers, reading-Answers, define_parsed-Answers,
  read_params-Safe, store_call-Answers, prepare_found-Answers,
}
use cirrus_sim.Base.Exec.{or_raise, ◌>>=◌, gets, modify, ◌>>◌, raise_if, pure}
use cirrus_sim.Rpc.Safety.{bind-Avoids, read_int32-Safe, read_string-Safe, read_uuid-Safe}
use cirrus_sim.Libvirt.DomainXml.{DomainXml, parse_uuid}
use cirrus_sim.Server.Parts.{read_domain_ref, reading, store_call, always, domain_reply}
use cirrus_sim.Base.Dict.{lookup}
use cirrus_sim.Rpc.Decoder.{read_string, read_int32, read_uuid}
use cirrus_sim.Server.Events.{deregister_by_event_id, register}
use cirrus_sim.Libvirt.Store.{get_domain_by_name, get_domain}
use cirrus_sim.Libvirt.Domains.{uuid_string}
use cirrus_sim.Rpc.Encoder.{write_int32, new_encoder}

-- `HandleMessage` of libvirt-sim/internal/rpc/handlers.go answers every message.

found-Answers :
    {R A B : Type 0} (o : Option A) (code : Int32) (p : Problem) (k : A → Serve R B)
    → ((a : A) → Answers (k a))
    → Answers (or_raise o (refused code p) >>= k)
found-Answers none code p k h w = ground arith
found-Answers (some a) code p k h w = h a w

module _ (X : Externals) (h : Session) where
  pub define_xml-Answers :
      (body : Bytes) (now : Time) → Answers (handle_domain_define_xml X h body now)
  unfolding handle_domain_define_xml
  define_xml-Answers body now =
      let made = λ (xml : Bytes) (x : DomainXml) (uuid : Bytes).
        define_parsed X h (defined_from X h x uuid (X.text xml)) now in
      let identified = λ (xml : Bytes) (x : DomainXml).
        or_raise (parse_uuid x.uuid) (refused vir_err_internal_error bad_uuid) >>= made xml x in
      bind-Avoids panicked (reading vir_err_internal_error read_string body)
        (λ xml.
          or_raise (X.unmarshal (X.text xml)) (refused vir_err_internal_error bad_xml)
          >>= identified xml)
        (reading-Answers vir_err_internal_error read_string body read_string-Safe)
        (λ xml.
          found-Answers (X.unmarshal (X.text xml)) vir_err_internal_error bad_xml (identified xml)
            (λ x.
              found-Answers (parse_uuid x.uuid) vir_err_internal_error bad_uuid (made xml x)
                (λ uuid. define_parsed-Answers X h (defined_from X h x uuid (X.text xml)) now)))

  pub prepare-Answers : (body : Bytes) → Answers (handle_migrate_prepare X h body)
  unfolding handle_migrate_prepare
  prepare-Answers body =
      bind-Avoids panicked (reading vir_err_internal_error (read_params X) body)
        (λ p. gets (λ w. find_source X p w.store) >>= λ found.
          or_raise found (refused vir_err_no_domain source_not_found) >>= prepare_found X h)
        (reading-Answers vir_err_internal_error (read_params X) body (read_params-Safe X))
        (λ p w.
          found-Answers (find_source X p w.store) vir_err_no_domain source_not_found
            (prepare_found X h) (prepare_found-Answers X h) w)

  session_client-Answers : Answers (session_client X h)
  unfolding session_client
  session_client-Answers w = elim (Option-cases (lookup h.conn w.clients)) [
    | inl e ↦ rw e (ground arith)
    | inr (ce, e) ↦ rw e (ground arith)
  ]

  pub register-Answers : (body : Bytes) → Answers (handle_event_register_any X h body)
  unfolding handle_event_register_any
  register-Answers body =
      bind-Avoids panicked (reading vir_err_internal_error read_int32 body)
        (λ event_id. session_client X h >>= λ ce.
          modify (put_client X h (register event_id ce).0)
          >> pure (write_int32 (register event_id ce).1 new_encoder).buf)
        (reading-Answers vir_err_internal_error read_int32 body read_int32-Safe)
        (λ event_id w. ground (arith, session_client-Answers w))

  pub deregister-Answers : (body : Bytes) → Answers (handle_event_deregister_any X h body)
  unfolding handle_event_deregister_any
  deregister-Answers body =
      bind-Avoids panicked (reading vir_err_internal_error read_int32 body)
        (λ event_id. session_client X h >>= λ ce.
          modify (put_client X h (deregister_by_event_id event_id ce).0)
          >> (raise_if (not (deregister_by_event_id event_id ce).1)
                (refused vir_err_internal_error (not_registered event_id))
              >> pure []))
        (reading-Answers vir_err_internal_error read_int32 body read_int32-Safe)
        (λ event_id w. ground (arith, session_client-Answers w))

  pub by_ref :
      (body : Bytes) (k : Domain → Serve X.ratios.Ratio Bytes)
      → ((d : Domain) → Answers (k d))
      → Answers (read_domain_ref h body >>= k)
  by_ref body k answers =
      bind-Avoids panicked (read_domain_ref h body) k (read_domain_ref-Answers X h body) answers

  pub by_name :
      (body : Bytes) (k : String → Serve X.ratios.Ratio Bytes)
      → ((uuid : String) → Answers (k uuid))
      → Answers (required_uuid X h body >>= k)
  by_name body k answers =
      bind-Avoids panicked (required_uuid X h body) k (required_uuid-Answers X h body) answers

  pub uuid-Answers : (body : Bytes) → Answers (handle_lookup_by_uuid X h body)
  unfolding handle_lookup_by_uuid
  uuid-Answers body =
      bind-Avoids panicked (reading vir_err_internal_error read_uuid body)
        (λ uuid.
          store_call (always vir_err_no_domain) (get_domain h.host_id (uuid_string uuid)) >>= λ d.
          pure (domain_reply X d))
        (reading-Answers vir_err_internal_error read_uuid body read_uuid-Safe)
        (λ uuid w. ground (
          arith,
          store_call-Answers (always vir_err_no_domain)
              (get_domain {R = X.ratios.Ratio} h.host_id (uuid_string uuid)) w,
        ))

  pub name-Answers : (body : Bytes) → Answers (handle_lookup_by_name X h body)
  unfolding handle_lookup_by_name
  name-Answers body =
      bind-Avoids panicked (reading vir_err_internal_error read_string body)
        (λ name.
          store_call (always vir_err_no_domain) (get_domain_by_name h.host_id (X.text name))
          >>= λ d. pure (domain_reply X d))
        (reading-Answers vir_err_internal_error read_string body read_string-Safe)
        (λ name w. ground (
          arith,
          store_call-Answers (always vir_err_no_domain)
              (get_domain_by_name {R = X.ratios.Ratio} h.host_id (X.text name)) w,
        ))
