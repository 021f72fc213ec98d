-- ===== src/Server/Events.antt =====
-- libvirt-sim/internal/rpc/events.go: the registrations of each client, and the events sent to them.
use cirrus_sim.Base.Dict.{Dict, insert, erase, lookup}
use cirrus_sim.Libvirt.Types.{Int32, Domain}
use cirrus_sim.Base.{
  String, Bool, [], ◌++◌, List, ◌+◌, false, if◌then◌else◌, ◌%◌, not, is_some, ◌==◌, true, map,
  string_eq, ◌∷◌, nat_eq,
}
use cirrus_sim.Server.Types.{Connection, Externals, World, ClientEvents, EventCallback, status_ok}
use cirrus_sim.Rpc.Encoder.{XdrEncoder, write_int32, write_uuid, write_string, new_encoder}
use cirrus_sim.Rpc.Protocol.{Message, remote_program, remote_protocol_version}

-- the lifecycle events, and their details
abbrev pub event_defined : Int32
event_defined = 0

abbrev pub event_undefined : Int32
event_undefined = 1

abbrev pub event_started : Int32
event_started = 2

abbrev pub event_suspended : Int32
event_suspended = 3

abbrev pub event_resumed : Int32
event_resumed = 4

abbrev pub event_stopped : Int32
event_stopped = 5

-- of what was added, removed, booted, paused, unpaused or shut down
abbrev pub detail_none : Int32
detail_none = 0

abbrev pub detail_migrated : Int32
detail_migrated = 1

abbrev pub detail_destroyed : Int32
detail_destroyed = 1

-- `VirDomainEventIDLifecycle`
abbrev pub lifecycle_event_id : Int32
lifecycle_event_id = 0

-- `ProcDomainEventLifecycle`, and the type of a message that is no reply
abbrev pub proc_domain_event_lifecycle : Int32
proc_domain_event_lifecycle = 107

abbrev pub message_type : Int32
message_type = 2

unfoldable pub new_client_events : String → ClientEvents
new_client_events host_id = record { callbacks = []; next_cb_id = 1; host_id = host_id }

-- `Register`: the client as it is left, and the id of the callback
unfoldable pub register : Int32 → ClientEvents → ClientEvents × Int32
register event_id ce =
    let id = ce.next_cb_id in
    (
      record ce {
        next_cb_id = (id + 1) % 0x100000000;
        callbacks = insert id (record { callback_id = id; event_id = event_id }) ce.callbacks;
      },
      id,
    )

-- `Deregister`
unfoldable pub deregister : Int32 → ClientEvents → ClientEvents × Bool
deregister callback_id ce =
    if is_some (lookup callback_id ce.callbacks)
    then (record ce { callbacks = erase callback_id ce.callbacks }, true)
    else (ce, false)

-- the loop of `DeregisterByEventID`, which deletes while it goes through the map
unfoldable pub without_event : Int32 → Dict Int32 EventCallback → Dict Int32 EventCallback × Bool
without_event event_id [] = ([], false)
without_event event_id ((id, cb) ∷ cbs) =
    let (rest, found) = without_event event_id cbs in
    if cb.event_id == event_id then (rest, true) else ((id, cb) ∷ rest, found)

-- `DeregisterByEventID`
unfoldable pub deregister_by_event_id : Int32 → ClientEvents → ClientEvents × Bool
deregister_by_event_id event_id ce =
    let (rest, found) = without_event event_id ce.callbacks in
    (record ce { callbacks = rest }, found)

-- the loop of `GetCallbacksForEvent`
unfoldable pub callbacks_for_event : Int32 → Dict Int32 EventCallback → List Int32
callbacks_for_event event_id [] = []
callbacks_for_event event_id ((_, cb) ∷ cbs) =
    let rest = callbacks_for_event event_id cbs in
    if cb.event_id == event_id then cb.callback_id ∷ rest else rest

module _ (X : Externals) where
  -- `encodeDomainRef`
  unfoldable pub encode_domain_ref : Domain → XdrEncoder → XdrEncoder
  encode_domain_ref d e = write_int32 d.id (write_uuid d.uuid (write_string (X.bytes d.name) e))

  -- `buildLifecycleEventMessage`
  unfoldable pub lifecycle_message : Int32 → Domain → Int32 → Int32 → Message
  lifecycle_message callback_id d event detail = record {
    header = record {
      program = remote_program;
      version = remote_protocol_version;
      procedure = proc_domain_event_lifecycle;
      kind = message_type;
      serial = 0;
      status = status_ok;
    };
    body =
        (write_int32 detail
          (write_int32 event (encode_domain_ref d (write_int32 callback_id new_encoder)))).buf;
  }

  -- what one client is sent
  unfoldable pub messages_to :
      String → Domain → Int32 → Int32 → Connection → ClientEvents → List (Connection × Message)
  messages_to host_id d event detail conn ce =
      if not (ce.host_id == host_id)
      then []
      else map (λ id. (conn, lifecycle_message id d event detail))
          (callbacks_for_event lifecycle_event_id ce.callbacks)

  -- the loop of `EmitDomainLifecycleEvent`
  unfoldable pub event_messages :
      String → Domain → Int32 → Int32 → Dict Connection ClientEvents → List (Connection × Message)
  event_messages host_id d event detail [] = []
  event_messages host_id d event detail ((conn, ce) ∷ cs) =
      messages_to host_id d event detail conn ce ++ event_messages host_id d event detail cs

  unfoldable pub emit_lifecycle_event :
      {R : Type 0} → String → Domain → Int32 → Int32 → World R → World R
  emit_lifecycle_event host_id d event detail w = record w {
    sent = w.sent ++ event_messages host_id d event detail w.clients;
  }

-- `RegisterClient` and `UnregisterClient` of the event bus
module _ {R : Type 0} where
  unfoldable pub register_client : Connection → String → World R → World R
  register_client conn host_id w = record w {
    clients = insert conn (new_client_events host_id) w.clients;
  }

  unfoldable pub unregister_client : Connection → World R → World R
  unregister_client conn w = record w { clients = erase conn w.clients }
