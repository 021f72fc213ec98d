-- ===== src/Server/Keeps.antt =====
-- The calls of libvirt-sim/internal/rpc/handlers.go that only read.
use cirrus_sim.Server.Parts.{
  reading, store_call, always, read_domain_ref, read_reference, domain_reply,
}
use cirrus_sim.Server.Types.{
  Procedure, World, domain_define_xml, domain_create, domain_destroy, domain_shutdown,
  domain_suspend, domain_resume, domain_undefine, domain_migrate_prepare, domain_migrate_perform,
  domain_migrate_finish, domain_migrate_confirm, migrate_set_max_speed, event_register_any,
  event_deregister_any, Externals, Session, vir_err_internal_error, auth_list, get_capabilities,
  unknown, vir_err_no_domain, connect_open, connect_close, get_hostname, connect_get_version,
  connect_get_lib_version, domain_lookup_by_uuid, domain_lookup_by_name, node_get_info,
  node_get_free_memory, node_get_cpu_stats, node_get_memory_stats, list_all_domains,
  get_all_domain_stats, domain_reboot, domain_get_state, domain_get_info, domain_get_xml_desc,
  migrate_get_max_speed,
}
use cirrus_sim.Libvirt.Types.{Error, Int32, Action, Time, host_not_found, no_domain}
use cirrus_sim.Base.Exec.{Exec, ◌>>=◌, Result, ok, err, or_raise, pure}
use cirrus_sim.Rpc.Decoder.{ReadError, XdrDecoder, read_uuid, read_string}
use cirrus_sim.Rpc.Words.{Bytes}
use cirrus_sim.Base.{arith, ◌≡◌, ◌∙◌, refl, String, Option, some, string_eq, none}
use cirrus_sim.Libvirt.Store.{get_domain_by_name, get_host, list_domains, get_domain, find_by_name}
use cirrus_sim.Server.Queries.{
  session_host, handle_get_capabilities, handle_node_get_info, handle_node_get_free_memory,
  handle_node_get_cpu_stats, handle_node_get_memory_stats, handle_list_all_domains,
  handle_get_all_domain_stats, handle_domain_get_state, handle_domain_get_info,
  handle_domain_get_xml_desc, session_domains, handle_lookup_by_name, handle_lookup_by_uuid,
}
use cirrus_sim.Server.Dispatch.{serve, handle_message, select, handled}
use cirrus_sim.Server.Domains.{handle_domain_reboot}
use cirrus_sim.Server.Migrations.{handle_migrate_get_max_speed}
use cirrus_sim.Base.Dict.{lookup}
use cirrus_sim.Rpc.Protocol.{Message}
use cirrus_sim.Server.Refines.{get_domain-keeps}
use cirrus_sim.Libvirt.Domains.{uuid_string}

-- the procedures without an effect
abbrev pub IsQuery : Procedure → Type 0
IsQuery domain_define_xml = ⊥
IsQuery domain_create = ⊥
IsQuery domain_destroy = ⊥
IsQuery domain_shutdown = ⊥
IsQuery domain_suspend = ⊥
IsQuery domain_resume = ⊥
IsQuery domain_undefine = ⊥
IsQuery domain_migrate_prepare = ⊥
IsQuery domain_migrate_perform = ⊥
IsQuery domain_migrate_finish = ⊥
IsQuery domain_migrate_confirm = ⊥
IsQuery migrate_set_max_speed = ⊥
IsQuery event_register_any = ⊥
IsQuery event_deregister_any = ⊥
IsQuery _ = Unit {0}

abbrev Keeps : {E S A : Type 0} → Exec E S A → Type 0
Keeps {S = S} m = (s : S) → (m s).1 ≡ s

module _ {E S A : Type 0} where
  or_raise-Keeps : (o : Option A) (e : E) → Keeps {S = S} (or_raise o e)
  or_raise-Keeps none e = λ s. refl
  or_raise-Keeps (some a) e = λ s. refl

module _ {E S A B : Type 0} where
  bind-Keeps :
      (m : Exec E S A) (f : A → Exec E S B) → Keeps m → ((a : A) → Keeps (f a)) → Keeps (m >>= f)
  bind-Keeps m f h k s = of (m s).0
    where
      of :
          (r : Result E A)
          → (elim r as (λ _. Result E B × S) [ ok a ↦ f a (m s).1 | err y ↦ (err y, (m s).1) ]).1
            ≡ s
      of (ok a) = k a (m s).1 ∙ h s
      of (err y) = h s

module _ {R A : Type 0} where
  reading-Keeps :
      (code : Int32) (m : Exec ReadError XdrDecoder A) (body : Bytes)
      → Keeps {S = World R} (reading code m body)
  unfolding reading
  reading-Keeps code m body w = ground arith

  store_call-Keeps : (code : Error → Int32) (m : Action R A) → Keeps m → Keeps (store_call code m)
  unfolding store_call
  store_call-Keeps code m keeps w = ground (arith, keeps w.store)

module _ {R : Type 0} where
  get_host-Keeps : (host_id : String) → Keeps (get_host {R = R} host_id)
  unfolding get_host
  get_host-Keeps host_id s = or_raise-Keeps (lookup host_id s.hosts) host_not_found s

  get_domain_by_name-Keeps :
      (host_id name : String) → Keeps (get_domain_by_name {R = R} host_id name)
  unfolding get_domain_by_name
  get_domain_by_name-Keeps host_id name =
      bind-Keeps (get_host host_id) (λ h. or_raise (find_by_name name h.domains) no_domain)
        (get_host-Keeps host_id) (λ h. or_raise-Keeps (find_by_name name h.domains) no_domain)

  list_domains-Keeps : (host_id : String) → Keeps (list_domains {R = R} host_id)
  unfolding list_domains
  list_domains-Keeps host_id s = ground (arith, get_host-Keeps host_id s)

module _ (X : Externals) (h : Session) where
  session_host-Keeps : Keeps (session_host X h)
  unfolding session_host
  session_host-Keeps =
      store_call-Keeps (always vir_err_internal_error) (get_host h.host_id)
        (get_host-Keeps h.host_id)

  session_domains-Keeps : Keeps (session_domains X h)
  unfolding session_domains
  session_domains-Keeps =
      store_call-Keeps (always vir_err_internal_error) (list_domains h.host_id)
        (list_domains-Keeps h.host_id)

  found-Keeps :
      (uuid : String)
      → Keeps
          (store_call {R = X.ratios.Ratio} (always vir_err_no_domain) (get_domain h.host_id uuid))
  found-Keeps uuid =
      store_call-Keeps (always vir_err_no_domain) (get_domain h.host_id uuid)
        (get_domain-keeps h.host_id uuid)

  ref-Keeps : (body : Bytes) → Keeps {S = World X.ratios.Ratio} (read_domain_ref h body)
  unfolding read_domain_ref
  ref-Keeps body =
      bind-Keeps (reading vir_err_no_domain read_reference body)
        (λ uuid. store_call (always vir_err_no_domain) (get_domain h.host_id (uuid_string uuid)))
        (reading-Keeps vir_err_no_domain read_reference body)
        (λ uuid. found-Keeps (uuid_string uuid))

  uuid-Keeps : (body : Bytes) → Keeps (handle_lookup_by_uuid X h body)
  unfolding handle_lookup_by_uuid
  uuid-Keeps body =
      bind-Keeps (reading vir_err_internal_error read_uuid body)
        (λ uuid.
          store_call (always vir_err_no_domain) (get_domain h.host_id (uuid_string uuid)) >>= λ d.
          pure (domain_reply X d))
        (reading-Keeps vir_err_internal_error read_uuid body)
        (λ uuid w. ground (arith, found-Keeps (uuid_string uuid) w))

  name-Keeps : (body : Bytes) → Keeps (handle_lookup_by_name X h body)
  unfolding handle_lookup_by_name
  name-Keeps body =
      bind-Keeps (reading vir_err_internal_error read_string body)
        (λ name.
          store_call (always vir_err_no_domain) (get_domain_by_name h.host_id (X.text name))
          >>= λ d. pure (domain_reply X d))
        (reading-Keeps vir_err_internal_error read_string body)
        (λ name w. ground (
          arith,
          store_call-Keeps (always vir_err_no_domain)
              (get_domain_by_name {R = X.ratios.Ratio} h.host_id (X.text name))
              (get_domain_by_name-Keeps h.host_id (X.text name)) w,
        ))

  serve-Keeps :
      (p : Procedure) (body : Bytes) (now : Time) → IsQuery p → Keeps (serve X h p body now)
  unfolding serve handle_get_capabilities handle_node_get_info handle_node_get_free_memory
      handle_node_get_cpu_stats handle_node_get_memory_stats handle_list_all_domains
      handle_get_all_domain_stats handle_domain_get_state handle_domain_get_info
      handle_domain_get_xml_desc handle_domain_reboot handle_migrate_get_max_speed
  serve-Keeps auth_list body now q = λ w. refl
  serve-Keeps connect_open body now q = λ w. refl
  serve-Keeps connect_close body now q = λ w. refl
  serve-Keeps get_hostname body now q = λ w. refl
  serve-Keeps connect_get_version body now q = λ w. refl
  serve-Keeps connect_get_lib_version body now q = λ w. refl
  serve-Keeps (unknown n) body now q = λ w. refl
  serve-Keeps domain_lookup_by_uuid body now q = uuid-Keeps body
  serve-Keeps domain_lookup_by_name body now q = name-Keeps body
  serve-Keeps get_capabilities body now q = λ w. ground (arith, session_host-Keeps w)
  serve-Keeps node_get_info body now q = λ w. ground (arith, session_host-Keeps w)
  serve-Keeps node_get_free_memory body now q = λ w. ground (arith, session_host-Keeps w)
  serve-Keeps node_get_cpu_stats body now q = λ w. ground (arith, session_host-Keeps w)
  serve-Keeps node_get_memory_stats body now q = λ w. ground (arith, session_host-Keeps w)
  serve-Keeps list_all_domains body now q = λ w. ground (arith, session_domains-Keeps w)
  serve-Keeps get_all_domain_stats body now q = λ w. ground (arith, session_domains-Keeps w)
  serve-Keeps domain_reboot body now q = λ w. ground (arith, ref-Keeps body w)
  serve-Keeps domain_get_state body now q = λ w. ground (arith, ref-Keeps body w)
  serve-Keeps domain_get_info body now q = λ w. ground (arith, ref-Keeps body w)
  serve-Keeps domain_get_xml_desc body now q = λ w. ground (arith, ref-Keeps body w)
  serve-Keeps migrate_get_max_speed body now q = λ w. ground (arith, ref-Keeps body w)
  serve-Keeps domain_define_xml body now q = elim q [ ]
  serve-Keeps domain_create body now q = elim q [ ]
  serve-Keeps domain_destroy body now q = elim q [ ]
  serve-Keeps domain_shutdown body now q = elim q [ ]
  serve-Keeps domain_suspend body now q = elim q [ ]
  serve-Keeps domain_resume body now q = elim q [ ]
  serve-Keeps domain_undefine body now q = elim q [ ]
  serve-Keeps event_register_any body now q = elim q [ ]
  serve-Keeps event_deregister_any body now q = elim q [ ]
  serve-Keeps domain_migrate_prepare body now q = elim q [ ]
  serve-Keeps domain_migrate_perform body now q = elim q [ ]
  serve-Keeps domain_migrate_finish body now q = elim q [ ]
  serve-Keeps domain_migrate_confirm body now q = elim q [ ]
  serve-Keeps migrate_set_max_speed body now q = elim q [ ]

  -- A procedure that only reads leaves the store, the clients and what was sent as they are, also where
  -- it fails, and so does one that is not handled.
  pub handle_message-Keeps :
      (msg : Message) (now : Time) (w : World X.ratios.Ratio)
      → IsQuery (select msg.header.procedure handled)
      → (handle_message X h msg now w).1 ≡ w
  unfolding handle_message
  handle_message-Keeps msg now w q =
      serve-Keeps (select msg.header.procedure handled) msg.body now q w
