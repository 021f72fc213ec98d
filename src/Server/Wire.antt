-- ===== src/Server/Wire.antt =====
-- The calls of libvirt-sim/internal/rpc/handlers.go that change a domain, against the operations of the
-- store.
use cirrus_sim.Libvirt.Types.{Error, Int32, Time, Domain, Store, Action}
use cirrus_sim.Floats.{Ratios}
use cirrus_sim.Server.Types.{
  Procedure, Externals, Session, domain_create, domain_destroy, procedure_number, domain_shutdown,
  Serve, World, domain_suspend, Stop, domain_resume, domain_undefine, refused, refused_by_store,
  Connection,
}
use cirrus_sim.Base.{String, ◌≡◌, refl, List, ◌∷◌, [], arith, ◌++◌}
use cirrus_sim.Server.Dispatch.{serve, select, handled}
use cirrus_sim.Base.Exec.{Result, ok, err, ◌>>=◌}
use cirrus_sim.Server.Parts.{
  denied_code, store_call, invalid_code, read_domain_ref, pointed_to, domain_reply,
}
use cirrus_sim.Server.Domains.{
  change_found, handle_domain_create, emit, handle_domain_destroy, handle_domain_shutdown,
  start_found, handle_domain_suspend, handle_domain_resume, handle_domain_undefine, reply_with,
}
use cirrus_sim.Libvirt.Store.{
  start_domain, destroy_domain, shutdown_domain, suspend_domain, resume_domain, undefine_domain,
}
use cirrus_sim.Server.Events.{
  emit_lifecycle_event, event_stopped, detail_destroyed, detail_none, event_suspended,
  event_resumed, event_undefined, event_started, event_messages,
}
use cirrus_sim.Rpc.Words.{Bytes}
use cirrus_sim.Libvirt.Domains.{uuid_string}
use cirrus_sim.Rpc.Protocol.{Message}

-- the calls that name a domain and change it
pub data Lifecycle : Type 0 where
  create destroy shutdown suspend resume undefine : Lifecycle

abbrev pub procedure_of : Lifecycle → Procedure
procedure_of create = domain_create
procedure_of destroy = domain_destroy
procedure_of shutdown = domain_shutdown
procedure_of suspend = domain_suspend
procedure_of resume = domain_resume
procedure_of undefine = domain_undefine

abbrev pub code_of : Lifecycle → Error → Int32
code_of create = denied_code
code_of _ = invalid_code

-- the events of a success, with their details
abbrev pub events_of : Lifecycle → List (Int32 × Int32)
events_of create = (event_started, detail_none) ∷ (event_resumed, detail_none) ∷ []
events_of destroy = (event_stopped, detail_destroyed) ∷ []
events_of shutdown = (event_stopped, detail_none) ∷ []
events_of suspend = (event_suspended, detail_none) ∷ []
events_of resume = (event_resumed, detail_none) ∷ []
events_of undefine = (event_undefined, detail_none) ∷ []

-- the method of the store
abbrev pub operation : (F : Ratios) → Lifecycle → String → String → Time → Action F.Ratio (Unit {0})
operation F create host_id uuid now = start_domain F host_id uuid now
operation F destroy host_id uuid now = destroy_domain host_id uuid
operation F shutdown host_id uuid now = shutdown_domain host_id uuid
operation F suspend host_id uuid now = suspend_domain host_id uuid
operation F resume host_id uuid now = resume_domain host_id uuid
operation F undefine host_id uuid now = undefine_domain host_id uuid

module _ (X : Externals) (h : Session) where
  -- what the handlers do behind the domain
  abbrev pub change : Lifecycle → Time → Domain → Serve X.ratios.Ratio Bytes
  change create now = start_found X h now
  change destroy now = change_found X h invalid_code destroy_domain event_stopped detail_destroyed
  change shutdown now = change_found X h invalid_code shutdown_domain event_stopped detail_none
  change suspend now = change_found X h invalid_code suspend_domain event_suspended detail_none
  change resume now = change_found X h invalid_code resume_domain event_resumed detail_none
  change undefine now = change_found X h invalid_code undefine_domain event_undefined detail_none

  pub serve-change :
      (c : Lifecycle) (body : Bytes) (now : Time) (w : World X.ratios.Ratio)
      → serve X h (procedure_of c) body now w ≡ (read_domain_ref h body >>= change c now) w
  unfolding serve handle_domain_create handle_domain_destroy handle_domain_shutdown
      handle_domain_suspend handle_domain_resume handle_domain_undefine
  serve-change create body now w = refl
  serve-change destroy body now w = refl
  serve-change shutdown body now w = refl
  serve-change suspend body now w = refl
  serve-change resume body now w = refl
  serve-change undefine body now w = refl

  pub select-lifecycle :
      (c : Lifecycle) → select (procedure_number (procedure_of c)) handled ≡ procedure_of c
  unfolding select procedure_number
  select-lifecycle create = refl
  select-lifecycle destroy = refl
  select-lifecycle shutdown = refl
  select-lifecycle suspend = refl
  select-lifecycle resume = refl
  select-lifecycle undefine = refl

  -- the events, one after the other, about the domain as it is in the world `w`
  abbrev pub announced :
      Domain
      → List (Int32 × Int32)
      → World X.ratios.Ratio
      → List (Connection × Message)
      → List (Connection × Message)
  announced d [] w sent = sent
  announced d ((event, detail) ∷ events) w sent =
      announced d events w
        (sent ++ event_messages X h.host_id (pointed_to h d w) event detail w.clients)

  -- The reply `r` and the world `w'` that a call of the store with the result `o` and the store `s`
  -- leads to: a success and its events, or the error with its code.
  abbrev pub Follows :
      (Error → Int32)
      → Domain
      → List (Int32 × Int32)
      → Result Error (Unit {0}) × Store X.ratios.Ratio
      → World X.ratios.Ratio
      → Result Stop Bytes × World X.ratios.Ratio
      → Type 0
  Follows code d events (ok _, s) w (r, w') =
      (b : Bytes) × (r ≡ ok b)
      × (w'.store ≡ s)
      × (w'.clients ≡ w.clients)
      × (w'.sent ≡ announced d events w' w.sent)
  Follows code d events (err x, s) w (r, w') =
      (r ≡ err (refused (code x) (refused_by_store x)))
      × (w'.store ≡ s)
      × (w'.clients ≡ w.clients)
      × (w'.sent ≡ w.sent)

  change_found-Follows :
      (code : Error → Int32) (op : String → String → Action X.ratios.Ratio (Unit {0}))
      (event detail : Int32) (d : Domain) (w : World X.ratios.Ratio)
      (o : Result Error (Unit {0}) × Store X.ratios.Ratio)
      → op h.host_id (uuid_string d.uuid) w.store ≡ o
      → Follows code d ((event, detail) ∷ []) o w (change_found X h code op event detail d w)
  unfolding change_found store_call emit emit_lifecycle_event pointed_to
  change_found-Follows code op event detail d w (ok u, s) e =
      ([], ground (arith, e), ground (arith, e), ground (arith, e), ground (arith, e))
  change_found-Follows code op event detail d w (err x, s) e =
      (ground (arith, e), ground (arith, e), ground (arith, e), ground (arith, e))

  start_found-Follows :
      (now : Time) (d : Domain) (w : World X.ratios.Ratio)
      (o : Result Error (Unit {0}) × Store X.ratios.Ratio)
      → start_domain X.ratios h.host_id (uuid_string d.uuid) now w.store ≡ o
      → Follows denied_code d
          ((event_started, detail_none) ∷ (event_resumed, detail_none) ∷ [])
          o
          w
          (start_found X h now d w)
  unfolding start_found store_call emit emit_lifecycle_event pointed_to reply_with
  start_found-Follows now d w (ok u, s) e = (
    domain_reply X (pointed_to h d (record w { store = s })),
    ground (arith, e),
    ground (arith, e),
    ground (arith, e),
    ground (arith, e),
  )
  start_found-Follows now d w (err x, s) e =
      (ground (arith, e), ground (arith, e), ground (arith, e), ground (arith, e))

  pub change-Follows :
      (c : Lifecycle) (now : Time) (d : Domain) (w : World X.ratios.Ratio)
      → Follows
          (code_of c)
          d
          (events_of c)
          (operation X.ratios c h.host_id (uuid_string d.uuid) now w.store)
          w
          (change c now d w)
  change-Follows create now d w = start_found-Follows now d w _ refl
  change-Follows destroy now d w =
      change_found-Follows invalid_code destroy_domain event_stopped detail_destroyed d w _ refl
  change-Follows shutdown now d w =
      change_found-Follows invalid_code shutdown_domain event_stopped detail_none d w _ refl
  change-Follows suspend now d w =
      change_found-Follows invalid_code suspend_domain event_suspended detail_none d w _ refl
  change-Follows resume now d w =
      change_found-Follows invalid_code resume_domain event_resumed detail_none d w _ refl
  change-Follows undefine now d w =
      change_found-Follows invalid_code undefine_domain event_undefined detail_none d w _ refl
