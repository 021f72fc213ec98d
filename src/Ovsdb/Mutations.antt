-- ===== src/Ovsdb/Mutations.antt =====
-- ovn-sim/internal/ovsdb/store.go: what a mutation does to a row.
use cirrus_sim.Base.{
  nat_eq, String, if◌then◌else◌, ◌==◌, ◌%◌, Option, some, string_eq, none, ltb, ◌-◌, Bool, true,
  false,
}
use cirrus_sim.Base.Int64.{Int64, two63, two64, magnitude}
use cirrus_sim.Base.Dict.{insert}
use cirrus_sim.Base.Exec.{Result, ok, err}
use cirrus_sim.Ovsdb.Json.{GoValues, Value, Items, null, num, nil, cons, set_of}
use cirrus_sim.Ovsdb.Rows.{Row, column, set_elems, text_of}

-- The errors of the store and of the transactions; `panics` is Go's run-time panic, which no caller
-- recovers from.
pub data Error : Type 0 where
  unknown_table : String → Error
  invalid_mutation : Error
  cannot_multiply cannot_divide cannot_modulo : String → Error
  division_by_zero modulo_by_zero : String → Error
  unknown_mutator : String → Error
  unknown_operation : String → Error
  panics : Error

abbrev pub is_panic : Error → Bool
is_panic panics = true
is_panic e = false

-- Go's `%` on `int64`: the sign is that of the dividend.
unfoldable pub rem64 : Int64 → Int64 → Int64
rem64 a b = let r = magnitude a % magnitude b in if ltb a two63 then r else (two64 - r) % two64

module _ (G : GoValues) where
  open G use {Float, is_zero, add, sub, mul, div, to_int64, of_int64}

  -- `toFloat64` of both operands
  unfoldable pub numbers : Value Float → Value Float → Option (Float × Float)
  numbers (num a) (num b) = some (a, b)
  numbers a b = none

  -- `append(elems, val)`
  abbrev pub append_item : Items Float → Value Float → Items Float
  append_item nil v = cons v nil
  append_item (cons u us) v = cons u (append_item us v)

  -- the elements of a column that is no set: none, or its one value
  abbrev pub single : Value Float → Items Float
  single null = nil
  single v = cons v nil

  -- the value that `mutateSetInsert` writes to the column
  unfoldable pub inserted : Value Float → Value Float → Value Float
  unfolding set_elems
  inserted current val = elim (set_elems current) [
    | some vs ↦ set_of (append_item vs val)
    | none ↦ set_of (append_item (single current) val)
  ]

  -- the loop of `mutateSetDelete`
  unfoldable pub without : Items Float → String → Items Float
  unfolding text_of
  without nil s = nil
  without (cons v vs) s = let rest = without vs s in if text_of G v == s then rest else cons v rest

  unfoldable pub mutate_set_insert : Row Float → String → Value Float → Value Float → Row Float
  unfolding inserted
  mutate_set_insert row col current val = insert col (inserted current val) row

  unfoldable pub mutate_set_delete : Row Float → String → Value Float → Value Float → Row Float
  unfolding set_elems without
  mutate_set_delete row col current val = elim (set_elems current) [
    | some vs ↦ insert col (set_of (without vs (text_of G val))) row
    | none ↦ row
  ]

  -- `row[col] = …` with two numbers, or what is done otherwise
  abbrev pub with_numbers :
      Option (Float × Float)
      → (Float → Float → Result Error (Row Float))
      → Result Error (Row Float)
      → Result Error (Row Float)
  with_numbers (some (a, b)) f other = f a b
  with_numbers none f other = other

  -- `float64(int64(cf) % int64(vf))` panics where the divisor is cut off to 0.
  unfoldable pub modulo : Row Float → String → Float → Float → Result Error (Row Float)
  unfolding rem64
  modulo row col a b =
      if is_zero b
      then err (modulo_by_zero col)
      else if to_int64 b == 0
      then err panics
      else ok (insert col (num (of_int64 (rem64 (to_int64 a) (to_int64 b)))) row)

  unfoldable pub apply_mutation :
      Row Float → String → String → Value Float → Result Error (Row Float)
  unfolding column numbers mutate_set_insert mutate_set_delete modulo
  apply_mutation row col op val =
      let current = column row col in
      let both = numbers current val in
      if op == "+="
      then with_numbers both (λ a b. ok (insert col (num (add a b)) row))
          (ok (mutate_set_insert row col current val))
      else if op == "-="
      then with_numbers both (λ a b. ok (insert col (num (sub a b)) row))
          (ok (mutate_set_delete row col current val))
      else if op == "*="
      then with_numbers both (λ a b. ok (insert col (num (mul a b)) row))
          (err (cannot_multiply col))
      else if op == "/="
      then with_numbers both
          (λ a b.
            if is_zero b then err (division_by_zero col) else ok (insert col (num (div a b)) row))
          (err (cannot_divide col))
      else if op == "%="
      then with_numbers both (modulo row col) (err (cannot_modulo col))
      else if op == "insert"
      then ok (mutate_set_insert row col current val)
      else if op == "delete"
      then ok (mutate_set_delete row col current val)
      else err (unknown_mutator op)
