-- ===== src/Rpc/Consumed.antt =====
-- How much `ReadMessage` of libvirt-sim/internal/rpc/protocol.go takes from a connection.
use cirrus_sim.Base.{ℕ, arith, ◌≡◌, length, ◌+◌, ◌≤◌, Option, ltb, some, none, ◌-◌}
use cirrus_sim.Base.ListLaws.{length-drop, length-take}
use cirrus_sim.Base.Exec.{bind-inv, ok, raise_if, or_raise, ◌>>=◌, ◌>>◌}
use cirrus_sim.Rpc.Words.{Bytes, get_uint32, slice_from}
use cirrus_sim.Rpc.Protocol.{
  Message, ProtocolError, read_full, unframe, read_payload, read_message, of_result,
  max_message_size, no_length, message_too_short, crashed, message_too_large, no_payload,
}

pub read_full-size :
    (e : ProtocolError) (n : ℕ) (conn xs ys : Bytes)
    → read_full e n conn ≡ (ok xs, ys)
    → (length xs ≡ n) × (length conn ≡ n + length ys)
unfolding read_full
read_full-size e n conn xs ys h = ground (arith, length-take n conn, length-drop n conn)

unframe-size :
    (payload conn rest : Bytes) (msg : Message)
    → unframe payload conn ≡ (ok msg, rest)
    → (length payload ≡ 24 + length msg.body) × (rest ≡ conn)
unfolding unframe of_result slice_from
unframe-size payload conn rest msg h = ground (arith, length-drop 24 payload)

or_raise-state :
    (o : Option ℕ) (e : ProtocolError) (conn : Bytes) (v : ℕ) (conn' : Bytes)
    → or_raise o e conn ≡ (ok v, conn')
    → conn' ≡ conn
or_raise-state none e conn v conn' h = ground arith
or_raise-state (some w) e conn v conn' h = ground arith

read_payload-size :
    (total : ℕ) (conn rest : Bytes) (msg : Message)
    → read_payload total conn ≡ (ok msg, rest)
    → (total ≡ 28 + length msg.body)
      × (total ≤ max_message_size)
      × (length conn ≡ 24 + (length msg.body + length rest))
unfolding read_payload
read_payload-size total conn rest msg h =
    let (_, c1, short, h1) =
      bind-inv (raise_if (ltb total 28) (message_too_short total))
        (λ _.
          raise_if (ltb max_message_size total) (message_too_large total)
          >> (read_full no_payload (total - 4) >>= unframe))
        conn h in
    let (_, c2, large, h2) =
      bind-inv (raise_if (ltb max_message_size total) (message_too_large total))
        (λ _. read_full no_payload (total - 4) >>= unframe) c1 h1 in
    let (payload, c3, full, h3) = bind-inv (read_full no_payload (total - 4)) unframe c2 h2 in
    ground (
      arith,
      short,
      large,
      read_full-size no_payload (total - 4) c2 payload c3 full,
      unframe-size payload c3 rest msg h3,
    )

-- A message that is read has at most 4 MiB, and exactly its length is taken from the connection:
-- the four bytes of the length, the header of 24 bytes and the body.
pub read_message-size :
    (conn rest : Bytes) (msg : Message)
    → read_message conn ≡ (ok msg, rest)
    → (28 + length msg.body ≤ max_message_size)
      × (length conn ≡ 28 + (length msg.body + length rest))
unfolding read_message
read_message-size conn rest msg h =
    let (len_buf, c1, full, h1) =
      bind-inv (read_full no_length 4) (λ b. or_raise (get_uint32 b) crashed >>= read_payload) conn
        h in
    let (total, c2, word, h2) =
      bind-inv (or_raise (get_uint32 len_buf) crashed) read_payload c1 h1 in
    ground (
      arith,
      read_full-size no_length 4 conn len_buf c1 full,
      or_raise-state (get_uint32 len_buf) crashed c1 total c2 word,
      read_payload-size total c2 rest msg h2,
    )
