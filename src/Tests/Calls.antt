-- ===== src/Tests/Calls.antt =====
-- The RPC server of the libvirt simulator on concrete data.
use Prim.Native.Nat.{Ordering, compare}
use Prim.Native.Char.{Char, char, code, nul, IsLt, IsScalar}
use text.Mathlib.TextEquality.{IsScalar-prop}
use cirrus_sim.Base.{ℕ, String, [], ◌∷◌, ◌≡◌, ◌⊎◌, ap, refl, some, none}
use cirrus_sim.Tests.{percent}
use cirrus_sim.Libvirt.Store.{new_store}
use cirrus_sim.Rpc.Words.{Bytes}
use cirrus_sim.Rpc.Protocol.{Message, remote_program, remote_protocol_version, reply_type}
use cirrus_sim.Server.Types.{Externals, Session, World, status_ok, status_error}
use cirrus_sim.Server.Dispatch.{handle_message}
use cirrus_sim.Server.Replies.{handle_message_replies}

-- A text as its code points, and back.
abbrev BothLt : Ordering → Ordering → Type 0
BothLt Ordering.lt o = IsLt o
BothLt Ordering.eq _ = ⊥
BothLt Ordering.gt _ = ⊥

abbrev LtOrBothLt : Ordering → Ordering → Ordering → Type 0
LtOrBothLt Ordering.lt _ _ = Unit {0}
LtOrBothLt Ordering.eq o p = BothLt o p
LtOrBothLt Ordering.gt o p = BothLt o p

abbrev dec_both : (o p : Ordering) → Dec (BothLt o p)
dec_both Ordering.lt Ordering.lt = yes tt
dec_both Ordering.lt Ordering.eq = no (λ h. h)
dec_both Ordering.lt Ordering.gt = no (λ h. h)
dec_both Ordering.eq _ = no (λ h. h)
dec_both Ordering.gt _ = no (λ h. h)

abbrev dec_scalar : (o p q : Ordering) → Dec (LtOrBothLt o p q)
dec_scalar Ordering.lt _ _ = yes tt
dec_scalar Ordering.eq o p = dec_both o p
dec_scalar Ordering.gt o p = dec_both o p

abbrev IsScalar_dec : (n : ℕ) → Dec (IsScalar n)
IsScalar_dec n = dec_scalar (compare n 55296) (compare 57343 n) (compare n 1114112)

abbrev char_from : (n : ℕ) → Dec (IsScalar n) → Char
char_from n (yes p) = char n p
char_from n (no _) = nul

char_from_lem : (n : ℕ) (p : IsScalar n) (d : Dec (IsScalar n)) → char_from n d ≡ char n p
char_from_lem n p (yes q) = ap (char n) (IsScalar-prop n q p)
char_from_lem n p (no h) = absurd (h p)

abbrev points : String → Bytes
points String.[] = []
points (String.◌∷◌ c s) = code c ∷ points s

abbrev decoded : Bytes → String
decoded [] = String.[]
decoded (n ∷ ns) = String.◌∷◌ (char_from n (IsScalar_dec n)) (decoded ns)

decoded-points : (s : String) → decoded (points s) ≡ s
decoded-points String.[] = refl
decoded-points (String.◌∷◌ (char n p) s) =
    λ i. String.◌∷◌ (char_from_lem n p (IsScalar_dec n) i) (decoded-points s i)

abbrev externals : Externals
externals = record {
  ratios = percent;
  bytes = points;
  text = decoded;
  text-bytes = decoded-points;
  describe = λ p. [];
  unmarshal = λ s. none;
  capabilities = λ model memory cpus. [];
}

abbrev session : Session
session = record { host_id = "host-1"; conn = 7 }

abbrev world : World ℕ
world = record { store = new_store; clients = []; sent = [] }

-- The parameters of a migration, cut off behind their number.
abbrev call : Message
call = record {
  header = record {
    program = remote_program;
    version = remote_protocol_version;
    procedure = 303;
    kind = 0;
    serial = 12;
    status = status_ok;
  };
  body = 0 ∷ 0 ∷ 0 ∷ 9 ∷ [];
}

handle_message_replies_example :
    (m : Message) × ((handle_message externals session call 5 world).0 ≡ some m)
    × (m.header.program ≡ remote_program)
    × (m.header.version ≡ remote_protocol_version)
    × (m.header.kind ≡ reply_type)
    × (m.header.procedure ≡ call.header.procedure)
    × (m.header.serial ≡ call.header.serial)
    × ((m.header.status ≡ status_ok) ⊎ (m.header.status ≡ status_error))
handle_message_replies_example = handle_message_replies externals session call 5 world
