-- ===== src/Ovsdb/Store.antt =====
-- ovn-sim/internal/ovsdb/store.go: the tables of a database. A row is a map that only the store holds:
-- what goes in and out is copied, so a row is a value here. The order of a table's rows is that of the
-- list, where Go's is not fixed.
use cirrus_sim.Base.{
  ℕ, String, List, [], ◌∷◌, Bool, if◌then◌else◌, Option, none, some, keep_if, length, suc, is_some,
  string_eq,
}
use cirrus_sim.Base.Dict.{Dict, lookup, insert, values}
use cirrus_sim.Base.Exec.{ok, err, Exec, ◌>>=◌, ◌>>◌, pure, gets, or_raise, modify}
use cirrus_sim.Ovsdb.Json.{GoValues, Value, str, arr, nil, cons, tagged}
use cirrus_sim.Ovsdb.Rows.{Row, match_where, text_or_empty}
use cirrus_sim.Ovsdb.Mutations.{Error, apply_mutation, unknown_table, invalid_mutation}

-- the rows by their UUIDs
abbrev pub Table : Type 0 → Type 0
Table Φ = Dict String (Row Φ)

-- The store less its mutex. The schema is read when the store is made, for the names of the tables.
pub record Store (Φ : Type 0) : Type 0 where
  pub tables : Dict String (Table Φ)

module _ {Φ : Type 0} where
  abbrev pub empty_tables : List String → Dict String (Table Φ)
  empty_tables [] = []
  empty_tables (name ∷ names) = (name, []) ∷ empty_tables names

  -- `NewStore`, from the names of the schema's tables
  unfoldable pub new_store : List String → Store Φ
  new_store names = record { tables = empty_tables names }

  -- `t, ok := s.tables[table]; if !ok { return … }`
  unfoldable pub get_table : String → Exec Error (Store Φ) (Table Φ)
  get_table name = do t ← gets (λ s. lookup name s.tables); or_raise t (unknown_table name)

  -- what is written through the pointer to a table
  unfoldable pub put_table : String → Table Φ → Store Φ → Store Φ
  put_table name t s = record s { tables = insert name t s.tables }

  -- `for k, v := range values { row[k] = v }`
  unfoldable pub assign : Row Φ → Row Φ → Row Φ
  assign [] row = row
  assign ((k, v) ∷ vs) row = assign vs (insert k v row)

  -- `Insert`, with the UUID that `uuid.New()` gives
  unfoldable pub insert_row : String → String → Row Φ → Exec Error (Store Φ) String
  unfolding get_table put_table
  insert_row id table row = do
    t ← get_table table
    modify (put_table table (insert id (insert "_uuid" (tagged "uuid" (str id)) row) t))
    pure id

  unfoldable pub get_row : String → String → Store Φ → Option (Row Φ)
  get_row table id s = elim (lookup table s.tables) [ none ↦ none | some t ↦ lookup id t ]

  unfoldable pub row_exists : String → String → Store Φ → Bool
  unfolding get_row
  row_exists table id s = is_some (get_row table id s)

  unfoldable pub all_rows : String → Exec Error (Store Φ) (Table Φ)
  unfolding get_table
  all_rows table = get_table table

  abbrev pub emptied : Dict String (Table Φ) → Dict String (Table Φ)
  emptied [] = []
  emptied ((name, t) ∷ ts) = (name, []) ∷ emptied ts

  unfoldable pub reset : Store Φ → Store Φ
  reset s = record s { tables = emptied s.tables }

  abbrev pub counts : Dict String (Table Φ) → Dict String ℕ
  counts [] = []
  counts ((name, t) ∷ ts) = (name, length t) ∷ counts ts

  unfoldable pub stats : Store Φ → Dict String ℕ
  stats s = counts s.tables

module _ (G : GoValues) where
  open G use {Float}

  abbrev pub Where : Type 0
  Where = List (Value Float)

  -- the rows of a table that match
  abbrev pub matching : Where → Table Float → List (Row Float)
  matching wh t = keep_if (λ r. match_where G r wh) (values t)

  unfoldable pub select : String → Where → Exec Error (Store Float) (List (Row Float))
  unfolding get_table
  select table wh = do t ← get_table table; pure (matching wh t)

  -- the loop of `Update`
  unfoldable pub update_rows : Where → Row Float → Table Float → Table Float × ℕ
  unfolding assign
  update_rows wh vs [] = ([], 0)
  update_rows wh vs ((id, row) ∷ t) =
      let (rest, n) = update_rows wh vs t in
      if match_where G row wh then ((id, assign vs row) ∷ rest, suc n) else ((id, row) ∷ rest, n)

  unfoldable pub update : String → Where → Row Float → Exec Error (Store Float) ℕ
  unfolding get_table put_table update_rows
  update table wh vs = do
    t ← get_table table
    modify (put_table table (update_rows wh vs t).0)
    pure (update_rows wh vs t).1

  -- the loop of `Delete`
  unfoldable pub delete_rows : Where → Table Float → Table Float × ℕ
  delete_rows wh [] = ([], 0)
  delete_rows wh ((id, row) ∷ t) =
      let (rest, n) = delete_rows wh t in
      if match_where G row wh then (rest, suc n) else ((id, row) ∷ rest, n)

  unfoldable pub delete : String → Where → Exec Error (Store Float) ℕ
  unfolding get_table put_table delete_rows
  delete table wh = do
    t ← get_table table
    modify (put_table table (delete_rows wh t).0)
    pure (delete_rows wh t).1

  -- The mutations of one row, one after the other. The row is changed in place, so it comes back as
  -- the mutations before an error left it.
  unfoldable pub mutate_row : List (Value Float) → Exec Error (Row Float) (Unit {0})
  unfolding apply_mutation text_or_empty
  mutate_row [] row = (ok tt, row)
  mutate_row (arr (cons c (cons o (cons val nil))) ∷ ms) row =
      elim (apply_mutation G row (text_or_empty G c) (text_or_empty G o) val) [
        | ok row' ↦ mutate_row ms row'
        | err e ↦ (err e, row)
      ]
  mutate_row (m ∷ ms) row = (err invalid_mutation, row)

  -- the loop of `Mutate`, which stops at the first error
  unfoldable pub mutate_rows : Where → List (Value Float) → Exec Error (Table Float) ℕ
  unfolding mutate_row
  mutate_rows wh ms [] = (ok 0, [])
  mutate_rows wh ms ((id, row) ∷ t) =
      let (rest, t') = mutate_rows wh ms t in
      let (done, row') = mutate_row ms row in
      if match_where G row wh
      then elim done [
        | ok _ ↦ (elim rest [ ok n ↦ ok (suc n) | err e ↦ err e ], (id, row') ∷ t')
        | err e ↦ (err e, (id, row') ∷ t)
      ]
      else (rest, (id, row) ∷ t')

  unfoldable pub mutate : String → Where → List (Value Float) → Exec Error (Store Float) ℕ
  unfolding get_table put_table mutate_rows
  mutate table wh ms = do
    t ← get_table table
    modify (put_table table (mutate_rows wh ms t).1)
    (λ s. ((mutate_rows wh ms t).0, s))
