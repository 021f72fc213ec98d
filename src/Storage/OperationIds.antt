-- ===== src/Storage/OperationIds.antt =====
-- The ids of operations in storage-sim/internal/state/store.go: `fmt.Sprintf("op-%03d", s.opCounter)`.
use text.Mathlib.TextLemmas.{append_cancel_left}
use cirrus_sim.Base.{
  ℕ, ◌+◌, ◌≡◌, ◌≤◌, ◌<◌, String, none, some, sym, ap, ◌∙◌, arith, string_eq, Option-cases, inl, inr,
  ◌⊎◌, str_iff,
}
use cirrus_sim.Base.Int64.{Int64, two63, add64}
use cirrus_sim.Base.Dict.{lookup, lookup-insert}
use cirrus_sim.Base.Format.{pad, number_of, number_of-pad}
use cirrus_sim.Base.Exec.{ok}
use cirrus_sim.Storage.Types.{Store, Operation, Time}
use cirrus_sim.Storage.Flatten.{start_flatten, op_id_of, FlattenThread}

op_id_of-injective : (a b : Int64) → a < two63 → b < two63 → op_id_of a ≡ op_id_of b → a ≡ b
unfolding op_id_of
op_id_of-injective a b h k e =
    sym (number_of-pad 3 a h)
    ∙ ap number_of (append_cancel_left "op-" (pad 3 a) (pad 3 b) e)
    ∙ number_of-pad 3 b k

module _ {R : Type 0} where
  -- The operations bear numbers up to the counter.
  abbrev pub IsNumbered : Store R → Type 0
  IsNumbered s =
      (id : String) (op : Operation)
      → lookup id s.operations ≡ some op
      → (n : ℕ) × (id ≡ op_id_of n) × (n ≤ s.op_counter)

  start_flatten-exact :
      (id : String) (now : Time) (s : Store R) {op : Operation} {t : FlattenThread}
      → (start_flatten id now s).0 ≡ ok (op, t)
      → (t.op_id ≡ op_id_of (add64 s.op_counter 1))
        × ((start_flatten id now s).1.op_counter ≡ add64 s.op_counter 1)
        × ((k : String) (o : Operation)
            → lookup k (start_flatten id now s).1.operations ≡ some o
            → (k ≡ t.op_id) ⊎ (lookup k s.operations ≡ some o))
  unfolding start_flatten
  start_flatten-exact id now s {op} {t} h = elim (Option-cases (lookup id s.volumes)) [
    | inl missing ↦ absurd (ground arith)
    | inr (v, e) ↦ (
      ground arith,
      ground arith,
      λ k o ek. ground (arith, lookup-insert t.op_id k op s.operations, str_iff t.op_id k),
    )
  ]

  -- As long as every operation bears the number of an earlier count, and the counter has not reached
  -- the largest `int64`, the operation that `StartFlatten` starts gets an id that no operation has, and
  -- every operation then bears the number of an earlier count again.
  pub start_flatten_fresh :
      (id : String) (now : Time) (s : Store R) {op : Operation} {t : FlattenThread}
      → IsNumbered s
      → s.op_counter + 1 < two63
      → (start_flatten id now s).0 ≡ ok (op, t)
      → (lookup t.op_id s.operations ≡ none) × IsNumbered (start_flatten id now s).1
  unfolding add64
  start_flatten_fresh id now s {op} {t} c small h =
      let (named, counted, old) = start_flatten-exact id now s h in
      (
        elim (Option-cases (lookup t.op_id s.operations)) [
          | inl free ↦ free
          | inr (o, e) ↦
              let (n, same, below) = c t.op_id o e in
              let clash =
                op_id_of-injective n (add64 s.op_counter 1) (omega arith) (omega arith)
                  (sym same ∙ named) in
              absurd (omega arith)
        ],
        λ k o ek. elim (old k o ek) [
          | inl new ↦ (add64 s.op_counter 1, new ∙ named, omega arith)
          | inr there ↦ let (n, same, below) = c k o there in (n, same, omega arith)
        ],
      )
