-- ===== src/Ovsdb/SetLaws.antt =====
-- The conditions and the set mutations of ovn-sim/internal/ovsdb/store.go.
use cirrus_sim.Base.{
  arith, String, ◌≡◌, not, false, true, Option-cases, str_iff, inl, refl, inr, string_eq,
}
use cirrus_sim.Ovsdb.Json.{GoValues, Items, Value, arr, cons, nil, str, set_of}
use cirrus_sim.Ovsdb.Rows.{
  Row, meets, eval_condition, text_or_empty, set_includes, set_elems, holds_text, text_of, column,
}
use cirrus_sim.Ovsdb.Mutations.{
  mutate_set_insert, mutate_set_delete, inserted, without, append_item, single, apply_mutation,
}
use cirrus_sim.Base.Dict.{lookup-insert_self}
use cirrus_sim.Base.Exec.{ok}

module _ (G : GoValues) where
  open G use {Float}

  abbrev pub condition : String → String → Value Float → Value Float
  condition col fn v = arr (cons (str col) (cons (str fn) (cons v nil)))

  holds_text-append_item :
      (vs : Items Float) (v : Value Float) → holds_text G (append_item G vs v) (text_of G v) ≡ true
  unfolding holds_text
  holds_text-append_item nil v = ground (arith, str_iff (text_of G v) (text_of G v))
  holds_text-append_item (cons u us) v = ground (arith, holds_text-append_item us v)

  holds_text-without : (vs : Items Float) (s : String) → holds_text G (without G vs s) s ≡ false
  unfolding holds_text without
  holds_text-without nil s = refl
  holds_text-without (cons u us) s = ground (arith, holds_text-without us s)

  set_includes-inserted : (current v : Value Float) → set_includes G (inserted G current v) v ≡ true
  unfolding inserted set_includes set_elems text_of
  set_includes-inserted current v = elim (Option-cases (set_elems current)) [
    | inl no_set ↦ ground (arith, no_set, holds_text-append_item (single G current) v)
    | inr (vs, set) ↦ ground (arith, set, holds_text-append_item vs v)
  ]

  -- `!=` holds of a row where `==` does not, in a row without the column too.
  pub meets-not_equal :
      (row : Row Float) (col : String) (v : Value Float)
      → meets G row (condition col "!=" v) ≡ not (meets G row (condition col "==" v))
  unfolding meets eval_condition text_or_empty
  meets-not_equal row col v = ground arith

  includes-mutate_set_insert :
      (row : Row Float) (col : String) (current v : Value Float)
      → meets G (mutate_set_insert G row col current v) (condition col "includes" v) ≡ true
  unfolding meets eval_condition text_or_empty mutate_set_insert
  includes-mutate_set_insert row col current v =
      ground
        (arith, lookup-insert_self col (inserted G current v) row, set_includes-inserted current v)

  includes-mutate_set_delete :
      (row : Row Float) (col : String) (vs : Items Float) (v : Value Float)
      → meets G (mutate_set_delete G row col (set_of vs) v) (condition col "includes" v) ≡ false
  unfolding meets eval_condition text_or_empty mutate_set_delete set_includes set_elems
  includes-mutate_set_delete row col vs v = ground (
    arith,
    lookup-insert_self col (set_of (without G vs (text_of G v))) row,
    holds_text-without vs (text_of G v),
  )

  -- The mutation `insert` of a value into a column succeeds, and the column then includes the value,
  -- whether it was a set, a single value or missing before.
  pub includes-insert :
      (row : Row Float) (col : String) (v : Value Float)
      → (row' : Row Float) × (apply_mutation G row col "insert" v ≡ ok row')
        × (meets G row' (condition col "includes" v) ≡ true)
  unfolding apply_mutation
  includes-insert row col v = (
    mutate_set_insert G row col (column row col) v,
    refl,
    includes-mutate_set_insert row col (column row col) v,
  )

  -- The mutation `delete` of a value from a column that is a set succeeds, and the column then does
  -- not include the value, however often the set had it.
  pub includes-delete :
      (row : Row Float) (col : String) (vs : Items Float) (v : Value Float)
      → column row col ≡ set_of vs
      → (row' : Row Float) × (apply_mutation G row col "delete" v ≡ ok row')
        × (meets G row' (condition col "includes" v) ≡ false)
  unfolding apply_mutation
  includes-delete row col vs v set = (
    mutate_set_delete G row col (column row col) v,
    refl,
    rw set (includes-mutate_set_delete row col vs v),
  )
