-- ===== src/Server/EventLaws.antt =====
-- Which connections libvirt-sim/internal/rpc/events.go sends a lifecycle event to.
use mathlib.Core.Path.{subst}
use cirrus_sim.Server.Events.{
  callbacks_for_event, without_event, register, deregister_by_event_id, messages_to, event_messages,
  lifecycle_message, lifecycle_event_id,
}
use cirrus_sim.Server.Types.{Connection, Externals, ClientEvents, EventCallback}
use cirrus_sim.Libvirt.Types.{Int32, Domain}
use cirrus_sim.Base.Dict.{insert, Dict, lookup, IsMap}
use cirrus_sim.Base.{
  ◌∙◌, String, List, [], ◌≢◌, ◌≡◌, map, Option, ◌∷◌, ◌++◌, arith, none, some, false, if◌then◌else◌,
  ◌==◌, ◌↔◌, refl, Bool-cases, nat_eq, inl, string_eq, inr, nat_beq_iff, ap,
}
use cirrus_sim.Rpc.Protocol.{Message}
use cirrus_sim.Base.ListLaws.{append_nil}

-- the messages written to one connection
abbrev pub messages_on : Connection → List (Connection × Message) → List Message
messages_on c [] = []
messages_on c ((conn, m) ∷ sent) =
    let rest = messages_on c sent in if conn == c then m ∷ rest else rest

messages_on-append :
    (c : Connection) (xs ys : List (Connection × Message))
    → messages_on c (xs ++ ys) ≡ messages_on c xs ++ messages_on c ys
messages_on-append c [] ys = refl
messages_on-append c ((conn, m) ∷ xs) ys = ground (arith, messages_on-append c xs ys)

module _ (X : Externals) (host_id : String) (d : Domain) (event detail : Int32) where
  -- the event for each lifecycle callback of a client of the host
  abbrev pub due_to : Option ClientEvents → List Message
  due_to none = []
  due_to (some ce) =
      if ce.host_id == host_id
      then map (λ id. lifecycle_message X id d event detail)
          (callbacks_for_event lifecycle_event_id ce.callbacks)
      else []

  on_self :
      (c : Connection) (ids : List Int32)
      → messages_on c (map (λ id. (c, lifecycle_message X id d event detail)) ids)
        ≡ map (λ id. lifecycle_message X id d event detail) ids
  on_self c [] = refl
  on_self c (id ∷ ids) = ground (arith, on_self c ids)

  on_other :
      (c conn : Connection) (ids : List Int32)
      → conn ≢ c
      → messages_on c (map (λ id. (conn, lifecycle_message X id d event detail)) ids) ≡ []
  on_other c conn [] ne = refl
  on_other c conn (id ∷ ids) ne = ground (arith, on_other c conn ids ne)

  messages_to_self :
      (c : Connection) (ce : ClientEvents)
      → messages_on c (messages_to X host_id d event detail c ce) ≡ due_to (some ce)
  unfolding messages_to
  messages_to_self c ce =
      ground (arith, on_self c (callbacks_for_event lifecycle_event_id ce.callbacks))

  messages_to-other :
      (c conn : Connection) (ce : ClientEvents)
      → conn ≢ c
      → messages_on c (messages_to X host_id d event detail conn ce) ≡ []
  unfolding messages_to
  messages_to-other c conn ce ne =
      ground (arith, on_other c conn (callbacks_for_event lifecycle_event_id ce.callbacks) ne)

  event_messages-unknown :
      (c : Connection) (clients : Dict Connection ClientEvents)
      → lookup c clients ≡ none
      → messages_on c (event_messages X host_id d event detail clients) ≡ []
  unfolding event_messages lookup
  event_messages-unknown c [] fresh = refl
  event_messages-unknown c ((conn, ce) ∷ cs) fresh = ground (
    arith,
    messages_on-append c (messages_to X host_id d event detail conn ce)
        (event_messages X host_id d event detail cs),
    messages_to-other c conn ce,
    event_messages-unknown c cs,
  )

  event_messages-first :
      (c : Connection) (ce : ClientEvents) (cs : Dict Connection ClientEvents)
      → lookup c cs ≡ none
      → messages_on c
          (messages_to X host_id d event detail c ce ++ event_messages X host_id d event detail cs)
        ≡ due_to (some ce)
  event_messages-first c ce cs fresh =
      messages_on-append c (messages_to X host_id d event detail c ce)
        (event_messages X host_id d event detail cs)
      ∙ ap (λ ms. messages_on c (messages_to X host_id d event detail c ce) ++ ms)
          (event_messages-unknown c cs fresh)
      ∙ append_nil (messages_on c (messages_to X host_id d event detail c ce))
      ∙ messages_to_self c ce

  event_messages-later :
      (c conn : Connection) (ce : ClientEvents) (cs : Dict Connection ClientEvents)
      → conn ≢ c
      → messages_on c (event_messages X host_id d event detail cs) ≡ due_to (lookup c cs)
      → messages_on c (
          messages_to X host_id d event detail conn ce
          ++ event_messages X host_id d event detail cs)
        ≡ due_to (lookup c cs)
  event_messages-later c conn ce cs ne ih =
      messages_on-append c (messages_to X host_id d event detail conn ce)
        (event_messages X host_id d event detail cs)
      ∙ ap (λ ms. ms ++ messages_on c (event_messages X host_id d event detail cs))
          (messages_to-other c conn ce ne)
      ∙ ih

  -- An event about a domain reaches a connection exactly once for each callback that its client has
  -- registered for lifecycle events, where the client belongs to the domain's host, and never
  -- otherwise. No connection is listed twice among the clients.
  pub messages_on-event_messages :
      (c : Connection) (clients : Dict Connection ClientEvents)
      → IsMap clients
      → messages_on c (event_messages X host_id d event detail clients) ≡ due_to (lookup c clients)
  unfolding event_messages lookup
  messages_on-event_messages c [] m = refl
  messages_on-event_messages c ((conn, ce) ∷ cs) m = elim (Bool-cases (conn == c)) [
    | inl e ↦ rw e (
        subst
          (λ k.
            messages_on k (
              messages_to X host_id d event detail conn ce
              ++ event_messages X host_id d event detail cs)
            ≡ due_to (some ce))
          ((nat_beq_iff conn c).0 e) (event_messages-first conn ce cs m.0))
    | inr e ↦ rw e (
        event_messages-later c conn ce cs (λ same. cc (e, (nat_beq_iff conn c).1 same))
          (messages_on-event_messages c cs m.1))
  ]

-- registering and deregistering
callbacks_for_event-insert :
    (event_id k : Int32) (cb : EventCallback) (cbs : Dict Int32 EventCallback)
    → lookup k cbs ≡ none
    → callbacks_for_event event_id (insert k cb cbs)
      ≡ callbacks_for_event event_id cbs ++ callbacks_for_event event_id ((k, cb) ∷ [])
unfolding callbacks_for_event insert lookup
callbacks_for_event-insert event_id k cb [] fresh = refl
callbacks_for_event-insert event_id k cb ((j, cb') ∷ cbs) fresh =
    ground (arith, callbacks_for_event-insert event_id k cb cbs)

-- A callback under an id that is not in use is added to those of its event, behind them, and those of
-- the other events stay as they are.
pub callbacks_for_event-register :
    (event_id other : Int32) (ce : ClientEvents)
    → lookup ce.next_cb_id ce.callbacks ≡ none
    → callbacks_for_event other (register event_id ce).0.callbacks
      ≡ callbacks_for_event other ce.callbacks
        ++ (if event_id == other then (register event_id ce).1 ∷ [] else [])
unfolding register callbacks_for_event
callbacks_for_event-register event_id other ce fresh = ground (
  arith,
  callbacks_for_event-insert other ce.next_cb_id
      (record { callback_id = ce.next_cb_id; event_id = event_id }) ce.callbacks fresh,
)

without_event-callbacks :
    (event_id other : Int32) (cbs : Dict Int32 EventCallback)
    → callbacks_for_event other (without_event event_id cbs).0
      ≡ (if event_id == other then [] else callbacks_for_event other cbs)
unfolding without_event callbacks_for_event
without_event-callbacks event_id other [] = ground arith
without_event-callbacks event_id other ((j, cb) ∷ cbs) =
    ground (arith, without_event-callbacks event_id other cbs)

without_event-found :
    (event_id : Int32) (cbs : Dict Int32 EventCallback)
    → ((without_event event_id cbs).1 ≡ false) ↔ (callbacks_for_event event_id cbs ≡ [])
unfolding without_event callbacks_for_event
without_event-found event_id [] = (λ _. refl, λ _. refl)
without_event-found event_id ((j, cb) ∷ cbs) = ground (arith, without_event-found event_id cbs)

-- `DeregisterByEventID` takes out every callback of the event and none of another, and reports that it
-- found none exactly where there was none.
pub deregister_by_event_id-callbacks :
    (event_id other : Int32) (ce : ClientEvents)
    → (callbacks_for_event other (deregister_by_event_id event_id ce).0.callbacks
        ≡ (if event_id == other then [] else callbacks_for_event other ce.callbacks))
      × (((deregister_by_event_id event_id ce).1 ≡ false)
          ↔ (callbacks_for_event event_id ce.callbacks ≡ []))
unfolding deregister_by_event_id
deregister_by_event_id-callbacks event_id other ce =
    (without_event-callbacks event_id other ce.callbacks, without_event-found event_id ce.callbacks)
