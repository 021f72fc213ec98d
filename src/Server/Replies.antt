-- ===== src/Server/Replies.antt =====
-- `HandleMessage` of libvirt-sim/internal/rpc/handlers.go answers every message.
use cirrus_sim.Base.{arith, ◌≡◌, inl, some, inr, nat_eq, ◌⊎◌, ◌≢◌, refl}
use cirrus_sim.Server.Types.{
  domain_migrate_prepare, domain_migrate_perform, domain_migrate_finish, domain_migrate_confirm,
  Externals, Session, panicked, refused, World, vir_err_internal_error, status_ok, status_error,
  Procedure, unknown, Stop, auth_list, connect_open, connect_close, get_hostname,
  connect_get_version, connect_get_lib_version, get_capabilities, node_get_info,
  node_get_free_memory, node_get_cpu_stats, node_get_memory_stats, list_all_domains,
  get_all_domain_stats, domain_get_state, domain_get_info, domain_get_xml_desc, domain_reboot,
  migrate_get_max_speed, migrate_set_max_speed, domain_lookup_by_uuid, domain_lookup_by_name,
  event_register_any, event_deregister_any, domain_define_xml, domain_create, domain_destroy,
  domain_shutdown, domain_suspend, domain_resume, domain_undefine,
}
use cirrus_sim.Libvirt.Types.{Time}
use cirrus_sim.Server.Dispatch.{handle_message, serve, reply_to, select, handled}
use cirrus_sim.Server.Migrations.{
  handle_migrate_perform, handle_migrate_finish, handle_migrate_confirm,
  handle_migrate_get_max_speed, handle_migrate_set_max_speed, perform_named, finish_named,
  confirm_named,
}
use cirrus_sim.Server.Queries.{
  handle_get_capabilities, handle_node_get_info, handle_node_get_free_memory,
  handle_node_get_cpu_stats, handle_node_get_memory_stats, handle_list_all_domains,
  handle_get_all_domain_stats, handle_domain_get_state, handle_domain_get_info,
  handle_domain_get_xml_desc,
}
use cirrus_sim.Server.Domains.{
  handle_domain_reboot, handle_domain_create, handle_domain_destroy, handle_domain_shutdown,
  handle_domain_suspend, handle_domain_resume, handle_domain_undefine, start_found, change_found,
}
use cirrus_sim.Rpc.Words.{Bytes}
use cirrus_sim.Server.Answers.{
  Answers, read_domain_ref-Answers, reading-Answers, session_host-Answers, session_domains-Answers,
  read_speed-Safe, start_found-Answers, change_found-Answers, perform_named-Answers,
  finish_named-Answers, confirm_named-Answers,
}
use cirrus_sim.Base.Exec.{Result, err, ok}
use cirrus_sim.Rpc.Protocol.{
  Message, remote_program, remote_protocol_version, reply_type, new_reply,
}
use cirrus_sim.Server.Parts.{read_speed, read_speed, error_body, invalid_code}
use cirrus_sim.Server.Events.{
  event_stopped, detail_destroyed, detail_none, event_suspended, event_resumed, event_undefined,
}
use cirrus_sim.Libvirt.Store.{
  destroy_domain, shutdown_domain, suspend_domain, resume_domain, undefine_domain,
}
use cirrus_sim.Server.Handlers.{
  uuid-Answers, name-Answers, register-Answers, deregister-Answers, define_xml-Answers,
  prepare-Answers, by_ref, by_name,
}

module _ (X : Externals) (h : Session) where
  serve-Answers : (p : Procedure) (body : Bytes) (now : Time) → Answers (serve X h p body now)
  unfolding serve handle_get_capabilities handle_node_get_info handle_node_get_free_memory
      handle_node_get_cpu_stats handle_node_get_memory_stats handle_list_all_domains
      handle_get_all_domain_stats handle_domain_get_state handle_domain_get_info
      handle_domain_get_xml_desc handle_domain_reboot handle_domain_create handle_domain_destroy
      handle_domain_shutdown handle_domain_suspend handle_domain_resume handle_domain_undefine
      handle_migrate_perform handle_migrate_finish handle_migrate_confirm
      handle_migrate_get_max_speed handle_migrate_set_max_speed
  serve-Answers auth_list body now = λ w. ground arith
  serve-Answers connect_open body now = λ w. ground arith
  serve-Answers connect_close body now = λ w. ground arith
  serve-Answers get_hostname body now = λ w. ground arith
  serve-Answers connect_get_version body now = λ w. ground arith
  serve-Answers connect_get_lib_version body now = λ w. ground arith
  serve-Answers (unknown n) body now = λ w. ground arith
  serve-Answers get_capabilities body now = λ w. ground (arith, session_host-Answers X h w)
  serve-Answers node_get_info body now = λ w. ground (arith, session_host-Answers X h w)
  serve-Answers node_get_free_memory body now = λ w. ground (arith, session_host-Answers X h w)
  serve-Answers node_get_cpu_stats body now = λ w. ground (arith, session_host-Answers X h w)
  serve-Answers node_get_memory_stats body now = λ w. ground (arith, session_host-Answers X h w)
  serve-Answers list_all_domains body now = λ w. ground (arith, session_domains-Answers X h w)
  serve-Answers get_all_domain_stats body now = λ w. ground (arith, session_domains-Answers X h w)
  serve-Answers domain_get_state body now = λ w. ground (arith, read_domain_ref-Answers X h body w)
  serve-Answers domain_get_info body now = λ w. ground (arith, read_domain_ref-Answers X h body w)
  serve-Answers domain_get_xml_desc body now =
      λ w. ground (arith, read_domain_ref-Answers X h body w)
  serve-Answers domain_reboot body now = λ w. ground (arith, read_domain_ref-Answers X h body w)
  serve-Answers migrate_get_max_speed body now =
      λ w. ground (arith, read_domain_ref-Answers X h body w)
  serve-Answers migrate_set_max_speed body now = λ w. ground (
    arith,
    reading-Answers {R = X.ratios.Ratio} vir_err_internal_error read_speed body read_speed-Safe w,
  )
  serve-Answers domain_lookup_by_uuid body now = uuid-Answers X h body
  serve-Answers domain_lookup_by_name body now = name-Answers X h body
  serve-Answers event_register_any body now = register-Answers X h body
  serve-Answers event_deregister_any body now = deregister-Answers X h body
  serve-Answers domain_define_xml body now = define_xml-Answers X h body now
  serve-Answers domain_migrate_prepare body now = prepare-Answers X h body
  serve-Answers domain_create body now =
      by_ref X h body (start_found X h now) (start_found-Answers X h now)
  serve-Answers domain_destroy body now =
      by_ref X h body (change_found X h invalid_code destroy_domain event_stopped detail_destroyed)
        (change_found-Answers X h invalid_code destroy_domain event_stopped detail_destroyed)
  serve-Answers domain_shutdown body now =
      by_ref X h body (change_found X h invalid_code shutdown_domain event_stopped detail_none)
        (change_found-Answers X h invalid_code shutdown_domain event_stopped detail_none)
  serve-Answers domain_suspend body now =
      by_ref X h body (change_found X h invalid_code suspend_domain event_suspended detail_none)
        (change_found-Answers X h invalid_code suspend_domain event_suspended detail_none)
  serve-Answers domain_resume body now =
      by_ref X h body (change_found X h invalid_code resume_domain event_resumed detail_none)
        (change_found-Answers X h invalid_code resume_domain event_resumed detail_none)
  serve-Answers domain_undefine body now =
      by_ref X h body (change_found X h invalid_code undefine_domain event_undefined detail_none)
        (change_found-Answers X h invalid_code undefine_domain event_undefined detail_none)
  serve-Answers domain_migrate_perform body now =
      by_name X h body (perform_named X h) (perform_named-Answers X h)
  serve-Answers domain_migrate_finish body now =
      by_name X h body (λ uuid. finish_named X h uuid now)
        (λ uuid. finish_named-Answers X h uuid now)
  serve-Answers domain_migrate_confirm body now =
      by_name X h body (confirm_named X h) (confirm_named-Answers X h)

  -- `HandleMessage` answers every message, whatever its body holds, with a reply: it has the program and
  -- the version of the protocol, the procedure and the serial number of the call, and the status of a
  -- success or of an error.
  pub handle_message_replies :
      (msg : Message) (now : Time) (w : World X.ratios.Ratio)
      → (m : Message) × ((handle_message X h msg now w).0 ≡ some m)
        × (m.header.program ≡ remote_program)
        × (m.header.version ≡ remote_protocol_version)
        × (m.header.kind ≡ reply_type)
        × (m.header.procedure ≡ msg.header.procedure)
        × (m.header.serial ≡ msg.header.serial)
        × ((m.header.status ≡ status_ok) ⊎ (m.header.status ≡ status_error))
  unfolding handle_message reply_to new_reply
  handle_message_replies msg now w =
      replies (serve X h (select msg.header.procedure handled) msg.body now w).0
        (serve-Answers (select msg.header.procedure handled) msg.body now w)
    where
      replies :
          (r : Result Stop Bytes)
          → r ≢ err panicked
          → (m : Message) × (reply_to X h msg.header r ≡ some m)
            × (m.header.program ≡ remote_program)
            × (m.header.version ≡ remote_protocol_version)
            × (m.header.kind ≡ reply_type)
            × (m.header.procedure ≡ msg.header.procedure)
            × (m.header.serial ≡ msg.header.serial)
            × ((m.header.status ≡ status_ok) ⊎ (m.header.status ≡ status_error))
      replies (ok body) ne =
          (new_reply msg.header status_ok body, refl, refl, refl, refl, refl, refl, inl refl)
      replies (err (refused code p)) ne = (
        new_reply msg.header status_error (error_body X code p),
        refl,
        refl,
        refl,
        refl,
        refl,
        refl,
        inr refl,
      )
      replies (err panicked) ne = absurd (ne refl)
