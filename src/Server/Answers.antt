-- ===== src/Server/Answers.antt =====
-- Whether a handler of libvirt-sim/internal/rpc can reach Go's panic.
use cirrus_sim.Libvirt.Migration.{migrate_prepare, migrate_perform, migrate_finish, migrate_confirm}
use cirrus_sim.Server.Types.{
  Serve, Externals, Session, panicked, Stop, vir_err_internal_error, vir_err_no_domain, refused,
  unreadable,
}
use cirrus_sim.Server.Parts.{
  read_reference, reading, store_call, read_domain_ref, always, denied_code, perform_code,
  missing_code, read_speed,
}
use cirrus_sim.Server.Migrations.{
  read_params, read_params_from, read_param, required_uuid, Params, no_params, confirm_named,
  emit_if_any, perform_named, finish_named, prepare_found, string_param, domain_if_any, set_param,
  write_cookie,
}
use cirrus_sim.Libvirt.Types.{Int32, Error, Action, Domain, Time}
use cirrus_sim.Rpc.Safety.{
  Safe, Avoids, bind-Avoids, read_int32-Safe, read_string-Safe, read_uint32-Safe, read_uint64-Safe,
  read_uuid-Safe,
}
use cirrus_sim.Base.Exec.{Exec, ◌>>=◌, pure, gets, ◌>>◌}
use cirrus_sim.Rpc.Decoder.{
  ReadError, XdrDecoder, panics, read_uint32, read_uint64, read_string, new_decoder, read_uuid,
  read_int32,
}
use cirrus_sim.Base.{
  ℕ, arith, ◌≢◌, suc, String, zero, if◌then◌else◌, ◌==◌, Option, some, none, nat_eq, [],
}
use cirrus_sim.Server.Domains.{change_found, start_found, define_parsed, emit, reply_with}
use cirrus_sim.Rpc.Words.{Bytes}
use cirrus_sim.Libvirt.Store.{get_domain, define_domain, start_domain, list_domains, get_host}
use cirrus_sim.Libvirt.Domains.{uuid_string}
use cirrus_sim.Server.Queries.{session_domains, session_host}
use cirrus_sim.Server.Events.{event_stopped, event_suspended}
use cirrus_sim.Rpc.Encoder.{new_encoder}

-- The action never panics.
abbrev pub Answers : {R A : Type 0} → Serve R A → Type 0
Answers m = Avoids panicked m

problem-Answers :
    (code : Int32) (e : ReadError)
    → e ≢ panics
    → elim e as (λ _. Stop) [ panics ↦ panicked | other ↦ refused code (unreadable other) ]
      ≢ panicked
problem-Answers code e ne = ground arith

module _ {R A : Type 0} where
  pub reading-Answers :
      (code : Int32) (m : Exec ReadError XdrDecoder A) (body : Bytes)
      → Safe m
      → Answers {R = R} (reading code m body)
  unfolding reading
  reading-Answers code m body safe w = ground (arith, safe (new_decoder body))

  pub store_call-Answers : (code : Error → Int32) (m : Action R A) → Answers (store_call code m)
  unfolding store_call
  store_call-Answers code m w = ground arith

pub read_reference-Safe : Safe read_reference
unfolding read_reference
read_reference-Safe =
    bind-Avoids panics read_string (λ _. read_uuid >>= λ uuid. read_int32 >>= λ _. pure uuid)
      read_string-Safe
      (λ _.
        bind-Avoids panics read_uuid (λ uuid. read_int32 >>= λ _. pure uuid) read_uuid-Safe
          (λ uuid d. ground (arith, read_int32-Safe d)))

pub read_speed-Safe : Safe read_speed
unfolding read_speed
read_speed-Safe =
    bind-Avoids panics read_reference (λ _. read_uint64) read_reference-Safe (λ _. read_uint64-Safe)

module _ (X : Externals) where
  read_param-Safe : (p : Params) → Safe (read_param X p)
  unfolding read_param
  read_param-Safe p =
      bind-Avoids panics read_string
        (λ field. read_int32 >>= λ kind.
          if kind == string_param
          then (read_string >>= λ value. pure (set_param (X.text field) (X.text value) p))
          else (read_uint64 >>= λ _. pure p))
        read_string-Safe
        (λ field.
          bind-Avoids panics read_int32
            (λ kind.
              if kind == string_param
              then (read_string >>= λ value. pure (set_param (X.text field) (X.text value) p))
              else (read_uint64 >>= λ _. pure p))
            read_int32-Safe (λ kind d. ground (arith, read_string-Safe d, read_uint64-Safe d)))

  read_params_from-Safe : (n : ℕ) (p : Params) → Safe (read_params_from X n p)
  unfolding read_params_from
  read_params_from-Safe zero p = λ d. ground arith
  read_params_from-Safe (suc n) p =
      bind-Avoids panics (read_param X p) (read_params_from X n) (read_param-Safe p)
        (read_params_from-Safe n)

  pub read_params-Safe : Safe (read_params X)
  unfolding read_params
  read_params-Safe =
      bind-Avoids panics read_uint32 (λ n. read_params_from X n no_params) read_uint32-Safe
        (λ n. read_params_from-Safe n no_params)

module _ (X : Externals) (h : Session) where
  pub read_domain_ref-Answers :
      (body : Bytes) → Answers {R = X.ratios.Ratio} (read_domain_ref h body)
  unfolding read_domain_ref
  read_domain_ref-Answers body =
      bind-Avoids panicked (reading vir_err_no_domain read_reference body)
        (λ uuid. store_call (always vir_err_no_domain) (get_domain h.host_id (uuid_string uuid)))
        (reading-Answers vir_err_no_domain read_reference body read_reference-Safe)
        (λ uuid.
          store_call-Answers (always vir_err_no_domain) (get_domain h.host_id (uuid_string uuid)))

  pub change_found-Answers :
      (code : Error → Int32) (op : String → String → Action X.ratios.Ratio (Unit {0}))
      (event detail : Int32) (d : Domain)
      → Answers (change_found X h code op event detail d)
  unfolding change_found emit
  change_found-Answers code op event detail d w =
      ground (arith, store_call-Answers code (op h.host_id (uuid_string d.uuid)) w)

  pub start_found-Answers : (now : Time) (d : Domain) → Answers (start_found X h now d)
  unfolding start_found emit reply_with
  start_found-Answers now d w = ground (
    arith,
    store_call-Answers denied_code (start_domain X.ratios h.host_id (uuid_string d.uuid) now) w,
  )

  pub define_parsed-Answers : (d : Domain) (now : Time) → Answers (define_parsed X h d now)
  unfolding define_parsed emit reply_with
  define_parsed-Answers d now w = ground (
    arith,
    store_call-Answers (always vir_err_internal_error)
        (define_domain {R = X.ratios.Ratio} h.host_id d now) w,
  )

  pub required_uuid-Answers : (body : Bytes) → Answers (required_uuid X h body)
  unfolding required_uuid
  required_uuid-Answers body w =
      ground
        (arith, reading-Answers vir_err_internal_error (read_params X) body (read_params-Safe X) w)

  pub session_host-Answers : Answers (session_host X h)
  unfolding session_host
  session_host-Answers = store_call-Answers (always vir_err_internal_error) (get_host h.host_id)

  pub session_domains-Answers : Answers (session_domains X h)
  unfolding session_domains
  session_domains-Answers =
      store_call-Answers (always vir_err_internal_error) (list_domains h.host_id)

  pub prepare_found-Answers : (d : Domain) → Answers (prepare_found X h d)
  unfolding prepare_found
  prepare_found-Answers d w =
      ground (arith, store_call-Answers denied_code (migrate_prepare X.ratios h.host_id d) w)

  emit_if_any-Answers : (d : Option Domain) (event : Int32) → Answers (emit_if_any X h d event)
  unfolding emit_if_any
  emit_if_any-Answers none event w = ground arith
  emit_if_any-Answers (some d) event w = ground arith

  pub perform_named-Answers : (uuid : String) → Answers (perform_named X h uuid)
  unfolding perform_named
  perform_named-Answers uuid =
      bind-Avoids panicked
        (store_call perform_code (migrate_perform {R = X.ratios.Ratio} h.host_id uuid))
        (λ _. gets (domain_if_any X h uuid) >>= λ d.
          emit_if_any X h d event_suspended >> pure (write_cookie X uuid new_encoder).buf)
        (store_call-Answers perform_code (migrate_perform h.host_id uuid))
        (λ _ w. ground (arith, emit_if_any-Answers (domain_if_any X h uuid w) event_suspended w))

  pub finish_named-Answers : (uuid : String) (now : Time) → Answers (finish_named X h uuid now)
  unfolding finish_named emit_if_any
  finish_named-Answers uuid now w = ground (
    arith,
    store_call-Answers missing_code (migrate_finish {R = X.ratios.Ratio} h.host_id uuid now) w,
  )

  pub confirm_named-Answers : (uuid : String) → Answers (confirm_named X h uuid)
  unfolding confirm_named
  confirm_named-Answers uuid w =
      bind-Avoids panicked
        (store_call missing_code (migrate_confirm {R = X.ratios.Ratio} h.host_id uuid))
        (λ _. emit_if_any X h (domain_if_any X h uuid w) event_stopped >> pure [])
        (store_call-Answers missing_code (migrate_confirm h.host_id uuid))
        (λ _ w'. ground (arith, emit_if_any-Answers (domain_if_any X h uuid w) event_stopped w')) w
