-- ===== src/Server/Migrations.antt =====
-- libvirt-sim/internal/rpc/handlers_migration.go. The simulated delays are left out.
use cirrus_sim.Libvirt.Migration.{migrate_prepare, migrate_perform, migrate_finish, migrate_confirm}
use cirrus_sim.Base.{
  String, ℕ, if◌then◌else◌, ◌==◌, string_eq, List, Option, nat_eq, some, none, not, suc, zero, ◌∷◌,
  [],
}
use cirrus_sim.Libvirt.Types.{Int32, Action, Domain, Store, Host, Time}
use cirrus_sim.Server.Types.{
  Externals, Session, Serve, World, ClientEvents, vir_err_internal_error, refused, not_registered,
  no_event_system, uuid_required, vir_err_no_domain, source_not_found,
}
use cirrus_sim.Libvirt.Store.{get_domain, get_domain_by_name, list_hosts, set_migration_speed}
use cirrus_sim.Rpc.Decoder.{
  read_uint32, read_string, read_int32, ReadError, read_uint64, XdrDecoder,
}
use cirrus_sim.Rpc.Encoder.{
  write_string, XdrEncoder, write_uint64, new_encoder, write_int32, write_optional_string,
}
use cirrus_sim.Server.Parts.{
  store_call, reading, read_domain_ref, denied_code, perform_code, missing_code, domain_reply,
  read_speed,
}
use cirrus_sim.Server.Events.{
  emit_lifecycle_event, deregister_by_event_id, register, detail_migrated, event_suspended,
  event_stopped, event_started, event_resumed,
}
use cirrus_sim.Base.Exec.{Exec, ◌>>=◌, pure, ok, gets, ◌>>◌, raise_if, or_raise, modify, err}
use cirrus_sim.Rpc.Words.{Bytes}
use cirrus_sim.Base.Dict.{insert, lookup}
use cirrus_sim.Libvirt.Domains.{uuid_string}

-- the parameters that the handlers look for
pub record Params : Type 0 where
  pub domain_name : String
  pub domain_uuid : String

abbrev pub no_params : Params
no_params = record { domain_name = ""; domain_uuid = "" }

-- `VIR_TYPED_PARAM_STRING`
abbrev pub string_param : Int32
string_param = 7

-- `switch field`; the destination's URI is read and not used
unfoldable pub set_param : String → String → Params → Params
set_param field value p =
    if field == "domain_name"
    then record p { domain_name = value }
    else if field == "domain_uuid"
    then record p { domain_uuid = value }
    else p

module _ (X : Externals) where
  open X use {ratios, bytes, text}
  open ratios use {Ratio}

  -- one round of the loop over the typed parameters
  unfoldable pub read_param : Params → Exec ReadError XdrDecoder Params
  read_param p = do
    field ← read_string
    kind ← read_int32
    if kind == string_param
        then (do value ← read_string; pure (set_param (text field) (text value) p))
        else (do _ ← read_uint64; pure p)

  -- the rounds that are left
  unfoldable pub read_params_from : ℕ → Params → Exec ReadError XdrDecoder Params
  read_params_from zero p = pure p
  read_params_from (suc n) p = read_param p >>= read_params_from n

  unfoldable pub read_params : Exec ReadError XdrDecoder Params
  read_params = do n ← read_uint32; read_params_from n no_params

  -- the first host, in the order of the list, where a domain is found
  unfoldable pub find_on :
      (String → Action Ratio Domain) → List (Host Ratio) → Store Ratio → Option Domain
  find_on get [] s = none
  find_on get (host ∷ hosts) s =
      let rest = find_on get hosts s in elim (get host.host_id s).0 [ ok d ↦ some d | err _ ↦ rest ]

  -- the search over all the hosts: by the identifier if there is one, then by the name
  unfoldable pub find_source : Params → Store Ratio → Option Domain
  find_source p s =
      let by_uuid =
        if not (p.domain_uuid == "")
        then find_on (λ id. get_domain id p.domain_uuid) (list_hosts s) s
        else none in
      let by_name =
        if not (p.domain_name == "")
        then find_on (λ id. get_domain_by_name id p.domain_name) (list_hosts s) s
        else none in
      elim by_uuid [ some d ↦ some d | none ↦ by_name ]

  -- the cookie: its length, itself, and zeros up to a multiple of 4
  unfoldable pub write_cookie : String → XdrEncoder → XdrEncoder
  write_cookie cookie e = write_string (bytes cookie) e

module _ (X : Externals) (h : Session) where
  open X use {ratios}
  open ratios use {Ratio}

  unfoldable pub prepare_found : Domain → Serve Ratio Bytes
  prepare_found d = do
    store_call denied_code (migrate_prepare ratios h.host_id d)
    pure (write_optional_string none (write_cookie X (uuid_string d.uuid) new_encoder)).buf

  unfoldable pub handle_migrate_prepare : Bytes → Serve Ratio Bytes
  handle_migrate_prepare body = do
    p ← reading vir_err_internal_error (read_params X) body
    found ← gets (λ w. find_source X p w.store)
    d ← or_raise found (refused vir_err_no_domain source_not_found)
    prepare_found d

  -- the identifier that the other three calls need
  unfoldable pub required_uuid : Bytes → Serve Ratio String
  required_uuid body = do
    p ← reading vir_err_internal_error (read_params X) body
    raise_if (p.domain_uuid == "") (refused vir_err_internal_error uuid_required)
    pure p.domain_uuid

  -- `dom, _ := h.store.GetDomain(…)`
  unfoldable pub domain_if_any : String → World Ratio → Option Domain
  domain_if_any uuid w = elim (get_domain h.host_id uuid w.store).0 [ ok d ↦ some d | err _ ↦ none ]

  -- `if dom != nil { … }`
  unfoldable pub emit_if_any : Option Domain → Int32 → Serve Ratio (Unit {0})
  emit_if_any none event = pure tt
  emit_if_any (some d) event = modify (emit_lifecycle_event X h.host_id d event detail_migrated)

  -- the call behind the parameters
  unfoldable pub perform_named : String → Serve Ratio Bytes
  perform_named uuid = do
    store_call perform_code (migrate_perform h.host_id uuid)
    d ← gets (domain_if_any uuid)
    emit_if_any d event_suspended
    pure (write_cookie X uuid new_encoder).buf

  unfoldable pub handle_migrate_perform : Bytes → Serve Ratio Bytes
  handle_migrate_perform body = required_uuid body >>= perform_named

  -- the call behind the parameters
  unfoldable pub finish_named : String → Time → Serve Ratio Bytes
  finish_named uuid now = do
    d ← store_call missing_code (migrate_finish h.host_id uuid now)
    emit_if_any (some d) event_started
    emit_if_any (some d) event_resumed
    pure (domain_reply X d)

  unfoldable pub handle_migrate_finish : Bytes → Time → Serve Ratio Bytes
  handle_migrate_finish body now = required_uuid body >>= λ uuid. finish_named uuid now

  -- the call behind the parameters
  unfoldable pub confirm_named : String → Serve Ratio Bytes
  confirm_named uuid = do
    d ← gets (domain_if_any uuid)
    store_call missing_code (migrate_confirm h.host_id uuid)
    emit_if_any d event_stopped
    pure []

  unfoldable pub handle_migrate_confirm : Bytes → Serve Ratio Bytes
  handle_migrate_confirm body = required_uuid body >>= confirm_named

  unfoldable pub handle_migrate_get_max_speed : Bytes → Serve Ratio Bytes
  handle_migrate_get_max_speed body = do
    _ ← read_domain_ref h body
    speed ← gets (λ w. w.store.migration_speed)
    pure (write_uint64 speed new_encoder).buf

  unfoldable pub handle_migrate_set_max_speed : Bytes → Serve Ratio Bytes
  handle_migrate_set_max_speed body = do
    speed ← reading vir_err_internal_error read_speed body
    modify (λ w. record w { store = set_migration_speed speed w.store })
    pure []

  -- the client of this connection, nil where it is not registered
  unfoldable pub session_client : Serve Ratio ClientEvents
  session_client = do
    found ← gets (λ w. lookup h.conn w.clients)
    or_raise found (refused vir_err_internal_error no_event_system)

  unfoldable pub put_client : ClientEvents → World Ratio → World Ratio
  put_client ce w = record w { clients = insert h.conn ce w.clients }

  unfoldable pub handle_event_register_any : Bytes → Serve Ratio Bytes
  handle_event_register_any body = do
    event_id ← reading vir_err_internal_error read_int32 body
    ce ← session_client
    let (registered, id) = register event_id ce
    modify (put_client registered)
    pure (write_int32 id new_encoder).buf

  unfoldable pub handle_event_deregister_any : Bytes → Serve Ratio Bytes
  handle_event_deregister_any body = do
    event_id ← reading vir_err_internal_error read_int32 body
    ce ← session_client
    let (left, found) = deregister_by_event_id event_id ce
    modify (put_client left)
    raise_if (not found) (refused vir_err_internal_error (not_registered event_id))
    pure []
