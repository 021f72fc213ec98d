-- ===== src/Server/Ends.antt =====
-- The rounds of the loop of libvirt-sim/internal/rpc/server.go, on any input.
use cirrus_sim.Server.Types.{Externals, Session, World}
use cirrus_sim.Base.{ℕ, Option, length, ◌≢◌, ◌≡◌, ◌<◌, some, arith, suc, ◌+◌, ap, none, zero, refl}
use cirrus_sim.Libvirt.Types.{Time}
use cirrus_sim.Server.Connections.{
  connection_loop, round, Ended, out_of_fuel, by_panic, unreadable_input,
}
use cirrus_sim.Rpc.Words.{Bytes}
use cirrus_sim.Rpc.Protocol.{ProtocolError, Message, read_message}
use cirrus_sim.Base.Exec.{err, ok, Result}
use cirrus_sim.Server.Streams.{then_loop}
use cirrus_sim.Rpc.Consumed.{read_message-size}

module _ (X : Externals) (h : Session) (clock : ℕ → Time) where
  round_ends :
      (msg : Message) (now : Time) (w : World X.ratios.Ratio)
      → (round X h clock msg now w).0 ≢ some out_of_fuel
  unfolding round
  round_ends msg now w = ground arith

  connection_loop-reads :
      (fuel i : ℕ) (incoming rest : Bytes) (msg : Message) (w : World X.ratios.Ratio)
      → read_message incoming ≡ (ok msg, rest)
      → connection_loop X h clock (suc fuel) i incoming w
        ≡ then_loop X h clock fuel (i + 1) rest (round X h clock msg (clock i) w)
  unfolding connection_loop
  connection_loop-reads fuel i incoming rest msg w e = ground (arith, e)

  connection_loop-fails :
      (fuel i : ℕ) (incoming : Bytes) (x : ProtocolError) (w : World X.ratios.Ratio)
      → (read_message incoming).0 ≡ err x
      → (connection_loop X h clock (suc fuel) i incoming w).0 ≢ out_of_fuel
  unfolding connection_loop
  connection_loop-fails fuel i incoming x w e = ground (arith, e, kind_ends x)
    where
      kind_ends :
          (x : ProtocolError)
          → (elim x as (λ _. Ended) [ ProtocolError.crashed ↦ by_panic | _ ↦ unreadable_input ])
            ≢ out_of_fuel
      kind_ends x = ground arith

  then_loop_ends :
      (fuel i : ℕ) (rest : Bytes) (r : Option Ended × World X.ratios.Ratio)
      → r.0 ≢ some out_of_fuel
      → ((w : World X.ratios.Ratio) → (connection_loop X h clock fuel i rest w).0 ≢ out_of_fuel)
      → (then_loop X h clock fuel i rest r).0 ≢ out_of_fuel
  then_loop_ends fuel i rest (some why, w) ne go = λ e. ne (ap some e)
  then_loop_ends fuel i rest (none, w) ne go = go w

  -- `handleConnection` comes to its end on any input: with more rounds at hand than the input has
  -- bytes, its loop stops before they are used up.
  pub connection_loop_ends :
      (fuel i : ℕ) (incoming : Bytes) (w : World X.ratios.Ratio)
      → length incoming < fuel
      → (connection_loop X h clock fuel i incoming w).0 ≢ out_of_fuel
  connection_loop_ends zero i incoming w enough = absurd (omega arith)
  connection_loop_ends (suc fuel) i incoming w enough =
      of (read_message incoming).0 refl (connection_loop_ends fuel)
    where
      of :
          (r : Result ProtocolError Message)
          → (read_message incoming).0 ≡ r
          → ((j : ℕ) (rest : Bytes) (w' : World X.ratios.Ratio)
              → length rest < fuel
              → (connection_loop X h clock fuel j rest w').0 ≢ out_of_fuel)
          → (connection_loop X h clock (suc fuel) i incoming w).0 ≢ out_of_fuel
      of (err x) e go = connection_loop-fails fuel i incoming x w e
      of (ok msg) e go =
          let rest = (read_message incoming).1 in
          let e' : read_message incoming ≡ (ok msg, rest) = ap (λ r. (r, rest)) e in
          let size = read_message-size incoming rest msg e' in
          rw (connection_loop-reads fuel i incoming rest msg w e') (
            then_loop_ends fuel (i + 1) rest (round X h clock msg (clock i) w)
              (round_ends msg (clock i) w) (λ w'. go (i + 1) rest w' (omega (arith, size))))
