-- ===== src/Server/Connections.antt =====
-- libvirt-sim/internal/rpc/server.go: `handleConnection`. A connection is the bytes that are still to
-- come from it; what is written to it is never refused, and the server is not stopped.
use cirrus_sim.Server.Types.{Externals, Session, World, procedure_number, connect_close}
use cirrus_sim.Rpc.Protocol.{write_message, Message, read_message, crashed}
use cirrus_sim.Base.{
  List, ℕ, ◌∷◌, ◌++◌, suc, Option, [], none, length, some, ◌+◌, if◌then◌else◌, ◌==◌, zero, nat_eq,
}
use cirrus_sim.Rpc.Words.{Bytes}
use cirrus_sim.Libvirt.Types.{Time}
use cirrus_sim.Server.Events.{register_client, unregister_client}
use cirrus_sim.Server.Dispatch.{handle_message}
use cirrus_sim.Base.Exec.{err, ok}

-- why the loop ended: the end of the input or an input that is no message, the reply to
-- `ProcConnectClose`, Go's panic, or the fuel
pub data Ended : Type 0 where
  unreadable_input after_close by_panic out_of_fuel : Ended

module _ (X : Externals) (h : Session) (clock : ℕ → Time) where
  open X use {ratios}
  open ratios use {Ratio}

  -- `WriteMessage(conn, reply)`
  unfoldable pub write_reply : Message → World Ratio → World Ratio
  write_reply m w = record w { sent = w.sent ++ (h.conn, m) ∷ [] }

  -- the round of the loop behind a message: why the loop ends here, if it does
  unfoldable pub round : Message → Time → World Ratio → Option Ended × World Ratio
  round msg now w =
      let (reply, w') = handle_message X h msg now w in
      elim reply [
        | none ↦ (some by_panic, w')
        | some m ↦ (
          if msg.header.procedure == procedure_number connect_close then some after_close else none,
          write_reply m w',
        )
      ]

  -- the loop, at the `i`th message
  unfoldable pub connection_loop : ℕ → ℕ → Bytes → World Ratio → Ended × World Ratio
  connection_loop zero i incoming w = (out_of_fuel, w)
  connection_loop (suc fuel) i incoming w =
      let (r, rest) = read_message incoming in
      elim r [
        | err e ↦ (elim e [ crashed ↦ by_panic | _ ↦ unreadable_input ], w)
        | ok msg ↦
            let (ended, w') = round msg (clock i) w in
            elim ended [ some why ↦ (why, w') | none ↦ connection_loop fuel (i + 1) rest w' ]
      ]

  unfoldable pub handle_connection : Bytes → World Ratio → Ended × World Ratio
  handle_connection incoming w =
      let (ended, w') =
        connection_loop (suc (length incoming)) 0 incoming (register_client h.conn h.host_id w) in
      (ended, unregister_client h.conn w')

  -- The messages as they are handled one after the other, without the bytes between them.
  unfoldable pub serve_all : ℕ → List Message → World Ratio → Option Ended × World Ratio
  serve_all i [] w = (none, w)
  serve_all i (msg ∷ msgs) w =
      let (ended, w') = round msg (clock i) w in
      elim ended [ some why ↦ (some why, w') | none ↦ serve_all (i + 1) msgs w' ]

-- the bytes of messages written one after the other
unfoldable pub stream : List Message → Bytes
stream [] = []
stream (msg ∷ msgs) = write_message msg ++ stream msgs
