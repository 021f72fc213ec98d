-- ===== src/Server/Streams.antt =====
-- The loop of libvirt-sim/internal/rpc/server.go over whole messages.
use native.Mathlib.Nat.{zero-add, suc-add}
use cirrus_sim.Base.{
  List, ◌∷◌, ℕ, Option, ◌≤◌, length, [], ◌+◌, suc, some, none, ◌++◌, ◌≡◌, arith, ◌<◌, zero, ◌-◌, ap,
  ◌∙◌, sym, refl,
}
use cirrus_sim.Server.Types.{Externals, Session, World}
use cirrus_sim.Rpc.Protocol.{Message, max_message_size, write_message, read_message, read_full}
use cirrus_sim.Libvirt.Types.{Time}
use cirrus_sim.Rpc.Framing.{IsHeader, message_size, read_message-write_message}
use cirrus_sim.Rpc.Words.{Bytes, put_uint32}
use cirrus_sim.Server.Connections.{
  connection_loop, stream, serve_all, Ended, round, handle_connection, unreadable_input,
}
use cirrus_sim.Server.Events.{register_client, unregister_client}
use cirrus_sim.Base.ListLaws.{append_nil, length-append, append_assoc}

-- messages that a connection carries: 32-bit fields in the header, and at most 4 MiB
abbrev pub AllSmall : List Message → Type 0
AllSmall [] = Unit {0}
AllSmall (msg ∷ msgs) = IsHeader msg.header × (message_size msg ≤ max_message_size) × AllSmall msgs

abbrev pub then_loop :
    (X : Externals) (h : Session) (clock : ℕ → Time)
    → ℕ
    → ℕ
    → Bytes
    → Option Ended × World X.ratios.Ratio
    → Ended × World X.ratios.Ratio
then_loop X h clock fuel i rest (some why, w) = (why, w)
then_loop X h clock fuel i rest (none, w) = connection_loop X h clock fuel i rest w

module _ (X : Externals) (h : Session) (clock : ℕ → Time) where
  connection_loop-step :
      (fuel i : ℕ) (msg : Message) (rest : Bytes) (w : World X.ratios.Ratio)
      → IsHeader msg.header
      → message_size msg ≤ max_message_size
      → connection_loop X h clock (suc fuel) i (write_message msg ++ rest) w
        ≡ then_loop X h clock fuel (i + 1) rest (round X h clock msg (clock i) w)
  unfolding connection_loop
  connection_loop-step fuel i msg rest w head small =
      ground (arith, read_message-write_message msg rest head small)

  length-write_message : (msg : Message) → 4 ≤ length (write_message msg)
  unfolding write_message put_uint32
  length-write_message msg = omega arith

  stream-size : (msgs : List Message) → length msgs ≤ length (stream msgs)
  unfolding stream
  stream-size [] = omega arith
  stream-size (msg ∷ msgs) = omega (
    arith,
    length-append (write_message msg) (stream msgs),
    length-write_message msg,
    stream-size msgs,
  )

  -- what the messages behind a round do, where the round went on
  loop-rest :
      (fuel i n j : ℕ) (msgs : List Message) (front rest : Bytes)
      (r : Option Ended × World X.ratios.Ratio)
      → ((w : World X.ratios.Ratio)
          → connection_loop X h clock n i front w
            ≡ then_loop X h clock fuel j rest (serve_all X h clock i msgs w))
      → then_loop X h clock n i front r
        ≡ then_loop X h clock fuel j rest
            (elim r.0 [ some why ↦ (some why, r.1) | none ↦ serve_all X h clock i msgs r.1 ])
  loop-rest fuel i n j msgs front rest (some why, w) go = refl
  loop-rest fuel i n j msgs front rest (none, w) go = go w

  pub connection_loop-stream :
      (fuel i j : ℕ) (msgs : List Message) (rest : Bytes) (w : World X.ratios.Ratio)
      → AllSmall msgs
      → i + length msgs ≡ j
      → connection_loop X h clock (length msgs + fuel) i (stream msgs ++ rest) w
        ≡ then_loop X h clock fuel j rest (serve_all X h clock i msgs w)
  unfolding stream serve_all
  connection_loop-stream fuel i j [] rest w small e =
      let e' : i ≡ j = omega arith in rw (← e', zero-add fuel) refl
  connection_loop-stream fuel i j (msg ∷ msgs) rest w small e =
      rw (suc-add (length msgs) fuel, append_assoc (write_message msg) (stream msgs) rest)
        (connection_loop-step (length msgs + fuel) i msg (stream msgs ++ rest) w small.0 small.1
          ∙ loop-rest fuel (i + 1) (length msgs + fuel) j msgs (stream msgs ++ rest) rest
              (round X h clock msg (clock i) w)
              (λ w'. connection_loop-stream fuel (i + 1) j msgs rest w' small.2 (omega arith)))

  -- nothing is left to read
  connection_loop-empty :
      (fuel i : ℕ) (w : World X.ratios.Ratio)
      → 0 < fuel
      → connection_loop X h clock fuel i [] w ≡ (unreadable_input, w)
  unfolding connection_loop read_message read_full
  connection_loop-empty zero i w pos = absurd (omega arith)
  connection_loop-empty (suc fuel) i w pos = refl

  ending :
      (fuel i : ℕ) (r : Option Ended × World X.ratios.Ratio)
      → 0 < fuel
      → then_loop X h clock fuel i [] r
        ≡ (elim r.0 [ some why ↦ why | none ↦ unreadable_input ], r.1)
  ending fuel i (some why, w) pos = refl
  ending fuel i (none, w) pos = connection_loop-empty fuel i w pos

  whole :
      (spare : ℕ) (msgs : List Message) (w : World X.ratios.Ratio)
      → AllSmall msgs
      → 0 < spare
      → connection_loop X h clock (length msgs + spare) 0 (stream msgs) w ≡ (
        elim (serve_all X h clock 0 msgs w).0 [ some why ↦ why | none ↦ unreadable_input ],
        (serve_all X h clock 0 msgs w).1,
      )
  whole spare msgs w small pos =
      ap (λ bs. connection_loop X h clock (length msgs + spare) 0 bs w)
        (sym (append_nil (stream msgs)))
      ∙ connection_loop-stream spare 0 (length msgs) msgs [] w small (omega arith)
      ∙ ending spare (length msgs) (serve_all X h clock 0 msgs w) pos

  -- Over messages of at most 4 MiB with 32-bit fields in their headers, written one after the other,
  -- `handleConnection` does what handling them one by one does: it registers the client, answers each
  -- message in order until one ends the connection or the input is at its end, and takes the client
  -- out again.
  pub handle_connection-stream :
      (msgs : List Message) (w : World X.ratios.Ratio)
      → AllSmall msgs
      → handle_connection X h clock (stream msgs) w ≡ (
        elim (serve_all X h clock 0 msgs (register_client h.conn h.host_id w)).0 [
          | some why ↦ why
          | none ↦ unreadable_input
        ],
        unregister_client h.conn
            (serve_all X h clock 0 msgs (register_client h.conn h.host_id w)).1,
      )
  unfolding handle_connection
  handle_connection-stream msgs w small =
      let start = register_client h.conn h.host_id w in
      let spare = suc (length (stream msgs)) - length msgs in
      let e : suc (length (stream msgs)) ≡ length msgs + spare = omega (arith, stream-size msgs) in
      ap (λ r. (r.0, unregister_client h.conn r.1))
        (ap (λ n. connection_loop X h clock n 0 (stream msgs) start) e
          ∙ whole spare msgs start small (omega (arith, stream-size msgs)))
