-- ===== src/Server/Dispatch.antt =====
-- libvirt-sim/internal/rpc/handlers.go: `HandleMessage`.
use cirrus_sim.Server.Types.{
  Externals, procedure_number, Session, Procedure, unknown, auth_list, World, connect_open, Serve,
  connect_close, get_hostname, Stop, get_capabilities, node_get_info, domain_define_xml, status_ok,
  domain_create, refused, domain_destroy, status_error, domain_shutdown, domain_suspend, panicked,
  domain_resume, domain_reboot, domain_get_state, domain_get_info, domain_get_xml_desc,
  domain_lookup_by_uuid, domain_lookup_by_name, list_all_domains, domain_undefine,
  connect_get_version, connect_get_lib_version, node_get_free_memory, node_get_cpu_stats,
  node_get_memory_stats, get_all_domain_stats, event_register_any, event_deregister_any,
  domain_migrate_prepare, domain_migrate_perform, domain_migrate_finish, domain_migrate_confirm,
  migrate_get_max_speed, migrate_set_max_speed, vir_err_internal_error, unhandled,
}
use cirrus_sim.Base.{List, ◌∷◌, if◌then◌else◌, ◌==◌, Option, [], nat_eq, some, none}
use cirrus_sim.Libvirt.Types.{Int32, Time}
use cirrus_sim.Rpc.Protocol.{Message, new_reply, Header}
use cirrus_sim.Rpc.Words.{Bytes}
use cirrus_sim.Server.Parts.{error_body}
use cirrus_sim.Base.Exec.{Result, pure, ok, err, raise}
use cirrus_sim.Server.Queries.{
  handle_auth_list, handle_get_hostname, handle_get_capabilities, handle_node_get_info,
  handle_domain_get_state, handle_domain_get_info, handle_domain_get_xml_desc,
  handle_lookup_by_uuid, handle_lookup_by_name, handle_list_all_domains, handle_get_version,
  handle_get_lib_version, handle_node_get_free_memory, handle_node_get_cpu_stats,
  handle_node_get_memory_stats, handle_get_all_domain_stats,
}
use cirrus_sim.Server.Domains.{
  handle_domain_define_xml, handle_domain_create, handle_domain_destroy, handle_domain_shutdown,
  handle_domain_suspend, handle_domain_resume, handle_domain_reboot, handle_domain_undefine,
}
use cirrus_sim.Server.Migrations.{
  handle_event_register_any, handle_event_deregister_any, handle_migrate_prepare,
  handle_migrate_perform, handle_migrate_finish, handle_migrate_confirm,
  handle_migrate_get_max_speed, handle_migrate_set_max_speed,
}

-- the procedures with a handler
abbrev pub handled : List Procedure
handled =
    auth_list ∷ connect_open ∷ connect_close ∷ get_hostname ∷ get_capabilities ∷ node_get_info
    ∷ domain_define_xml ∷ domain_create ∷ domain_destroy ∷ domain_shutdown ∷ domain_suspend
    ∷ domain_resume ∷ domain_reboot ∷ domain_get_state ∷ domain_get_info ∷ domain_get_xml_desc
    ∷ domain_lookup_by_uuid ∷ domain_lookup_by_name ∷ list_all_domains ∷ domain_undefine
    ∷ connect_get_version ∷ connect_get_lib_version ∷ node_get_free_memory ∷ node_get_cpu_stats
    ∷ node_get_memory_stats ∷ get_all_domain_stats ∷ event_register_any ∷ event_deregister_any
    ∷ domain_migrate_prepare ∷ domain_migrate_perform ∷ domain_migrate_finish
    ∷ domain_migrate_confirm ∷ migrate_get_max_speed ∷ migrate_set_max_speed ∷ []

-- `switch msg.Header.Procedure`: the first case of that number
unfoldable pub select : Int32 → List Procedure → Procedure
select n [] = unknown n
select n (p ∷ ps) = if procedure_number p == n then p else select n ps

module _ (X : Externals) (h : Session) where
  open X use {ratios}
  open ratios use {Ratio}

  -- the handler of each case, on the body of the message
  unfoldable pub serve : Procedure → Bytes → Time → Serve Ratio Bytes
  serve auth_list body now = pure (handle_auth_list X h)
  serve connect_open body now = pure []
  serve connect_close body now = pure []
  serve get_hostname body now = pure (handle_get_hostname X h)
  serve get_capabilities body now = handle_get_capabilities X h
  serve node_get_info body now = handle_node_get_info X h
  serve domain_define_xml body now = handle_domain_define_xml X h body now
  serve domain_create body now = handle_domain_create X h body now
  serve domain_destroy body now = handle_domain_destroy X h body
  serve domain_shutdown body now = handle_domain_shutdown X h body
  serve domain_suspend body now = handle_domain_suspend X h body
  serve domain_resume body now = handle_domain_resume X h body
  serve domain_reboot body now = handle_domain_reboot X h body
  serve domain_get_state body now = handle_domain_get_state X h body
  serve domain_get_info body now = handle_domain_get_info X h body
  serve domain_get_xml_desc body now = handle_domain_get_xml_desc X h body
  serve domain_lookup_by_uuid body now = handle_lookup_by_uuid X h body
  serve domain_lookup_by_name body now = handle_lookup_by_name X h body
  serve list_all_domains body now = handle_list_all_domains X h
  serve domain_undefine body now = handle_domain_undefine X h body
  serve connect_get_version body now = pure (handle_get_version X h)
  serve connect_get_lib_version body now = pure (handle_get_lib_version X h)
  serve node_get_free_memory body now = handle_node_get_free_memory X h
  serve node_get_cpu_stats body now = handle_node_get_cpu_stats X h
  serve node_get_memory_stats body now = handle_node_get_memory_stats X h
  serve get_all_domain_stats body now = handle_get_all_domain_stats X h
  serve event_register_any body now = handle_event_register_any X h body
  serve event_deregister_any body now = handle_event_deregister_any X h body
  serve domain_migrate_prepare body now = handle_migrate_prepare X h body
  serve domain_migrate_perform body now = handle_migrate_perform X h body
  serve domain_migrate_finish body now = handle_migrate_finish X h body now
  serve domain_migrate_confirm body now = handle_migrate_confirm X h body
  serve migrate_get_max_speed body now = handle_migrate_get_max_speed X h body
  serve migrate_set_max_speed body now = handle_migrate_set_max_speed X h body
  serve (unknown n) body now = raise (refused vir_err_internal_error (unhandled n))

  -- `NewReply` at the end of a handler, or of `errorReply`; `none` where it panicked
  unfoldable pub reply_to : Header → Result Stop Bytes → Option Message
  reply_to head (ok body) = some (new_reply head status_ok body)
  reply_to head (err (refused code p)) = some (new_reply head status_error (error_body X code p))
  reply_to head (err panicked) = none

  unfoldable pub handle_message : Message → Time → World Ratio → Option Message × World Ratio
  handle_message msg now w =
      let (r, w') = serve (select msg.header.procedure handled) msg.body now w in
      (reply_to msg.header r, w')
