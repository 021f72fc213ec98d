-- ===== src/Libvirt/Domains.antt =====
-- libvirt-sim/internal/state/domain.go: the transitions of one domain.
use cirrus_sim.Base.{
  ℕ, List, String, ◌∷◌, Bool, ◌||◌, true, suc, ◌*◌, if◌then◌else◌, false, [], not, ◌+◌, zero, ◌&&◌,
}
use Prim.Native.String.{◌++◌}
use cirrus_sim.Libvirt.Types.{
  Domain, Time, DomainState, Error, running, paused, shutoff, operation_invalid, minus_one,
}
use cirrus_sim.Base.Exec.{Result, err, ok}
use cirrus_sim.Base.Format.{hexadecimal}

-- the `i`th byte of the identifier
abbrev byte : List ℕ → ℕ → ℕ
byte [] i = 0
byte (x ∷ xs) zero = x
byte (x ∷ xs) (suc i) = byte xs i

-- `UUIDString`: `%08x-%04x-%04x-%04x-%012x`; the bytes that are or-ed together do not overlap
unfoldable pub uuid_string : List ℕ → String
uuid_string u =
    hexadecimal 8 8 (byte u 0 * 0x1000000 + byte u 1 * 0x10000 + byte u 2 * 0x100 + byte u 3) ""
    ++ "-"
    ++ hexadecimal 4 4 (byte u 4 * 0x100 + byte u 5) ""
    ++ "-"
    ++ hexadecimal 4 4 (byte u 6 * 0x100 + byte u 7) ""
    ++ "-"
    ++ hexadecimal 4 4 (byte u 8 * 0x100 + byte u 9) ""
    ++ "-"
    ++ hexadecimal 12 12
        (byte u 10 * 0x10000000000
          + byte u 11 * 0x100000000
          + byte u 12 * 0x1000000
          + byte u 13 * 0x10000
          + byte u 14 * 0x100
          + byte u 15)
        ""

unfoldable pub is_running : DomainState → Bool
is_running running = true
is_running _ = false

unfoldable pub is_paused : DomainState → Bool
is_paused paused = true
is_paused _ = false

unfoldable pub is_shutoff : DomainState → Bool
is_shutoff shutoff = true
is_shutoff _ = false

-- `d.State == DomainStateRunning || d.State == DomainStatePaused`
unfoldable pub is_active : DomainState → Bool
unfolding is_running is_paused
is_active s = is_running s || is_paused s

-- The methods of `Domain`: the domain as each leaves it, or an error.
unfoldable pub start : Time → Domain → Result Error Domain
unfolding is_shutoff
start now d =
    if not (is_shutoff d.state)
    then err operation_invalid
    else ok (record d { state = running; id = minus_one; started_at = now })

unfoldable pub destroy : Domain → Result Error Domain
unfolding is_running is_paused
destroy d =
    if not (is_running d.state) && not (is_paused d.state)
    then err operation_invalid
    else ok (record d { state = shutoff; id = minus_one })

unfoldable pub shut_down : Domain → Result Error Domain
unfolding is_running
shut_down d =
    if not (is_running d.state)
    then err operation_invalid
    else ok (record d { state = shutoff; id = minus_one })

unfoldable pub suspend : Domain → Result Error Domain
unfolding is_running
suspend d =
    if not (is_running d.state) then err operation_invalid else ok (record d { state = paused })

unfoldable pub resume : Domain → Result Error Domain
unfolding is_paused
resume d =
    if not (is_paused d.state) then err operation_invalid else ok (record d { state = running })

-- the domain stays as it is
unfoldable pub reboot : Domain → Result Error Domain
unfolding is_running
reboot d = if not (is_running d.state) then err operation_invalid else ok d
