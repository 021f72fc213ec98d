-- ===== src/Server/Domains.antt =====
-- libvirt-sim/internal/rpc/handlers.go: the handlers that change a domain, and `handleDomainReboot`.
-- The time of a call is its argument.
use cirrus_sim.Server.Types.{
  Externals, Session, Serve, vir_err_internal_error, refused, vir_err_operation_invalid, bad_xml,
  bad_uuid, not_running,
}
use cirrus_sim.Server.Parts.{
  reading, domain_reply, read_domain_ref, pointed_to, store_call, denied_code, invalid_code, always,
}
use cirrus_sim.Server.Events.{
  emit_lifecycle_event, event_undefined, event_started, event_suspended, event_stopped,
  event_resumed, detail_destroyed, detail_none, event_defined,
}
use cirrus_sim.Libvirt.DomainXml.{memory_kib_of, interface_ids_of, DomainXml, parse_uuid}
use cirrus_sim.Libvirt.Domains.{is_running, uuid_string}
use cirrus_sim.Rpc.Decoder.{read_string}
use cirrus_sim.Libvirt.Store.{
  undefine_domain, resume_domain, suspend_domain, start_domain, shutdown_domain, destroy_domain,
  define_domain,
}
use cirrus_sim.Libvirt.Types.{Domain, Int32, Time, no_state, idle, Error, Action}
use cirrus_sim.Rpc.Words.{Bytes}
use cirrus_sim.Base.{String, not, []}
use cirrus_sim.Base.Exec.{◌>>=◌, modify, gets, ◌>>◌, raise_if, or_raise, pure}

module _ (X : Externals) (h : Session) where
  open X use {ratios, text, unmarshal}
  open ratios use {Ratio}

  -- `emitEvent` of the domain behind a pointer
  unfoldable pub emit : Domain → Int32 → Int32 → Serve Ratio (Unit {0})
  emit d event detail =
      modify (λ w. emit_lifecycle_event X h.host_id (pointed_to h d w) event detail w)

  -- `h.domainReply(msg, dom)` of the domain behind a pointer
  unfoldable pub reply_with : Domain → Serve Ratio Bytes
  reply_with d = gets (λ w. domain_reply X (pointed_to h d w))

  -- the domain that `handleDomainDefineXMLFlags` makes; what it leaves out has its zero value
  unfoldable pub defined_from : DomainXml → Bytes → String → Domain
  defined_from x uuid xml = record {
    name = x.name;
    uuid = uuid;
    id = 0;
    state = no_state;
    vcpus = x.vcpu;
    memory_kib = memory_kib_of x;
    xml = xml;
    created_at = 0;
    started_at = 0;
    interface_ids = interface_ids_of x.interfaces;
    migration_state = idle;
    migration_cookie = "";
  }

  unfoldable pub define_parsed : Domain → Time → Serve Ratio Bytes
  define_parsed d now = do
    store_call (always vir_err_internal_error) (define_domain h.host_id d now)
    emit d event_defined detail_none
    reply_with d

  unfoldable pub handle_domain_define_xml : Bytes → Time → Serve Ratio Bytes
  handle_domain_define_xml body now = do
    xml ← reading vir_err_internal_error read_string body
    x ← or_raise (unmarshal (text xml)) (refused vir_err_internal_error bad_xml)
    uuid ← or_raise (parse_uuid x.uuid) (refused vir_err_internal_error bad_uuid)
    define_parsed (defined_from x uuid (text xml)) now

  unfoldable pub start_found : Time → Domain → Serve Ratio Bytes
  start_found now d = do
    store_call denied_code (start_domain ratios h.host_id (uuid_string d.uuid) now)
    emit d event_started detail_none
    emit d event_resumed detail_none
    reply_with d

  unfoldable pub handle_domain_create : Bytes → Time → Serve Ratio Bytes
  handle_domain_create body now = read_domain_ref h body >>= start_found now

  -- The shape of the five handlers below, behind the domain: the call of the store, its code for an
  -- error, and the event.
  unfoldable pub change_found :
      (Error → Int32)
      → (String → String → Action Ratio (Unit {0}))
      → Int32
      → Int32
      → Domain
      → Serve Ratio Bytes
  change_found code op event detail d = do
    store_call code (op h.host_id (uuid_string d.uuid))
    emit d event detail
    pure []

  unfoldable pub handle_domain_destroy : Bytes → Serve Ratio Bytes
  handle_domain_destroy body =
      read_domain_ref h body
      >>= change_found invalid_code destroy_domain event_stopped detail_destroyed

  unfoldable pub handle_domain_shutdown : Bytes → Serve Ratio Bytes
  handle_domain_shutdown body =
      read_domain_ref h body >>= change_found invalid_code shutdown_domain event_stopped detail_none

  unfoldable pub handle_domain_suspend : Bytes → Serve Ratio Bytes
  handle_domain_suspend body =
      read_domain_ref h body
      >>= change_found invalid_code suspend_domain event_suspended detail_none

  unfoldable pub handle_domain_resume : Bytes → Serve Ratio Bytes
  handle_domain_resume body =
      read_domain_ref h body >>= change_found invalid_code resume_domain event_resumed detail_none

  unfoldable pub handle_domain_undefine : Bytes → Serve Ratio Bytes
  handle_domain_undefine body =
      read_domain_ref h body
      >>= change_found invalid_code undefine_domain event_undefined detail_none

  unfoldable pub handle_domain_reboot : Bytes → Serve Ratio Bytes
  handle_domain_reboot body = do
    d ← read_domain_ref h body
    raise_if (not (is_running d.state)) (refused vir_err_operation_invalid (not_running d.state))
    pure []
