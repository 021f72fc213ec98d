-- ===== src/Server/Types.antt =====
-- libvirt-sim/internal/rpc: the state behind the listeners, the numbers of procedures.go, and what the
-- handlers take from outside of the model.
use cirrus_sim.Floats.{Ratios}
use cirrus_sim.Rpc.Decoder.{ReadError}
use cirrus_sim.Base.{ℕ, String, List, ◌≡◌, Option}
use cirrus_sim.Base.Dict.{Dict}
use cirrus_sim.Base.Exec.{Exec}
use cirrus_sim.Libvirt.Types.{Store, Int32, Error, DomainState}
use cirrus_sim.Rpc.Words.{Bytes}
use cirrus_sim.Rpc.Protocol.{Message}
use cirrus_sim.Libvirt.DomainXml.{DomainXml}
use cirrus_sim.Base.Int64.{Int64}

-- the registration of one callback
pub record EventCallback : Type 0 where
  pub callback_id : Int32
  pub event_id : Int32

-- `ClientEvents`, which is found under its connection
pub record ClientEvents : Type 0 where
  pub callbacks : Dict Int32 EventCallback
  pub next_cb_id : Int32
  pub host_id : String

-- a `net.Conn`, as a key
abbrev pub Connection : Type 0
Connection = ℕ

-- The store, the clients of the event bus, and what was written to the connections, oldest first.
pub record World (R : Type 0) : Type 0 where
  pub store : Store R
  pub clients : Dict Connection ClientEvents
  pub sent : List (Connection × Message)

-- The fields of `Handler`: its host and the connection that its `clientEvents` belong to.
pub record Session : Type 0 where
  pub host_id : String
  pub conn : Connection

-- What the text of an error reply is made from.
pub data Problem : Type 0 where
  unreadable : ReadError → Problem
  refused_by_store : Error → Problem
  bad_xml bad_uuid : Problem
  not_running : DomainState → Problem
  uuid_required source_not_found no_event_system : Problem
  not_registered unhandled : Int32 → Problem

-- How a handler ends early: with an error reply of that code, or with Go's panic.
pub data Stop : Type 0 where
  refused : Int32 → Problem → Stop
  panicked : Stop

-- What the handlers take from outside: the ratios of the store, the UTF-8 of a text and back, and the
-- texts of the errors.
pub record Externals : Type 1 where
  pub ratios : Ratios
  pub bytes : String → Bytes
  pub text : Bytes → String
  -- a string keeps its bytes through the wire
  pub text-bytes : (s : String) → text (bytes s) ≡ s
  pub describe : Problem → Bytes
  -- `xml.Unmarshal` into a `DomainXML`
  pub unmarshal : String → Option DomainXml
  -- the text of `handleGetCapabilities` for a model, a memory in KiB and a number of CPUs
  pub capabilities : String → Int64 → Int64 → Bytes

-- a handler, or a part of one
abbrev pub Serve : Type 0 → Type 0 → Type 0
Serve R A = Exec Stop (World R) A

-- The procedures that are handled.
pub data Procedure : Type 0 where
  auth_list connect_open connect_close get_hostname get_capabilities node_get_info : Procedure
  domain_define_xml domain_create domain_destroy domain_shutdown : Procedure
  domain_suspend domain_resume domain_reboot : Procedure
  domain_get_state domain_get_info domain_get_xml_desc : Procedure
  domain_lookup_by_uuid domain_lookup_by_name list_all_domains domain_undefine : Procedure
  connect_get_version connect_get_lib_version : Procedure
  node_get_free_memory node_get_cpu_stats node_get_memory_stats get_all_domain_stats : Procedure
  event_register_any event_deregister_any : Procedure
  domain_migrate_prepare domain_migrate_perform : Procedure
  domain_migrate_finish domain_migrate_confirm : Procedure
  migrate_get_max_speed migrate_set_max_speed : Procedure
  unknown : Int32 → Procedure

-- procedures.go: the number of each procedure
unfoldable pub procedure_number : Procedure → Int32
procedure_number connect_open = 1
procedure_number connect_close = 2
procedure_number connect_get_version = 4
procedure_number node_get_info = 6
procedure_number get_capabilities = 7
procedure_number domain_get_xml_desc = 14
procedure_number domain_get_info = 16
procedure_number domain_lookup_by_name = 23
procedure_number domain_lookup_by_uuid = 24
procedure_number domain_reboot = 27
procedure_number domain_resume = 28
procedure_number domain_suspend = 34
procedure_number get_hostname = 59
procedure_number auth_list = 66
procedure_number node_get_free_memory = 102
procedure_number connect_get_lib_version = 157
procedure_number event_register_any = 167
procedure_number event_deregister_any = 168
procedure_number domain_create = 196
procedure_number migrate_set_max_speed = 207
procedure_number domain_get_state = 212
procedure_number node_get_cpu_stats = 227
procedure_number node_get_memory_stats = 228
procedure_number domain_undefine = 231
procedure_number domain_destroy = 234
procedure_number migrate_get_max_speed = 242
procedure_number domain_shutdown = 258
procedure_number list_all_domains = 273
procedure_number domain_migrate_prepare = 303
procedure_number domain_migrate_perform = 305
procedure_number domain_migrate_finish = 306
procedure_number domain_migrate_confirm = 307
procedure_number get_all_domain_stats = 344
procedure_number domain_define_xml = 350
procedure_number (unknown n) = n

-- the error codes
abbrev pub vir_err_internal_error : Int32
vir_err_internal_error = 1

abbrev pub vir_err_operation_denied : Int32
vir_err_operation_denied = 6

abbrev pub vir_err_no_domain : Int32
vir_err_no_domain = 42

abbrev pub vir_err_operation_invalid : Int32
vir_err_operation_invalid = 55

-- the error domain
abbrev pub vir_from_qemu : Int32
vir_from_qemu = 18

-- `StatusOK` and `StatusError`
abbrev pub status_ok : Int32
status_ok = 0

abbrev pub status_error : Int32
status_error = 1
