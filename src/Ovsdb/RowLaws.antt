-- ===== src/Ovsdb/RowLaws.antt =====
-- What the operations of ovn-sim/internal/ovsdb/store.go do to the rows of a table.
use cirrus_sim.Base.{
  [], ◌∷◌, arith, String, Option, List, ◌≡◌, some, length, [], if◌then◌else◌, Option-cases, none,
  inl, ◌==◌, inr, ◌&&◌, Bool, true, false, string_eq, str_iff, refl,
}
use cirrus_sim.Ovsdb.Json.{GoValues, tagged, str}
use cirrus_sim.Ovsdb.Rows.{Row, match_where}
use cirrus_sim.Ovsdb.Store.{
  Store, Table, matching, update_rows, delete_rows, select, delete, update, insert_row, get_row,
  get_table, put_table, Where, assign,
}
use cirrus_sim.Base.Dict.{lookup, IsMap, lookup-insert, insert, lookup-insert_self}
use cirrus_sim.Base.Exec.{ok}

abbrev pub first_of : {A : Type 0} → Option A → Option A → Option A
first_of none b = b
first_of (some a) b = some a

-- The values are written one after the other, so with one value for a column this is what it gets.
lookup-assign :
    {Φ : Type 0} (vs row : Row Φ) (col : String)
    → IsMap vs
    → lookup col (assign vs row) ≡ first_of (lookup col vs) (lookup col row)
unfolding assign lookup
lookup-assign [] row col m = refl
lookup-assign ((k, v) ∷ vs) row col m = ground (
  arith,
  lookup-assign vs (insert k v row) col m.1,
  lookup-insert k col v row,
  str_iff k col,
  m.0,
)

module _ (G : GoValues) where
  open G use {Float}

  matching-delete_rows :
      (wh : Where G) (t : Table Float) → matching G wh (delete_rows G wh t).0 ≡ []
  unfolding delete_rows
  matching-delete_rows wh [] = refl
  matching-delete_rows wh ((id, row) ∷ t) = ground (arith, matching-delete_rows wh t)

  count-delete_rows :
      (wh : Where G) (t : Table Float) → (delete_rows G wh t).1 ≡ length (matching G wh t)
  unfolding delete_rows
  count-delete_rows wh [] = refl
  count-delete_rows wh ((id, row) ∷ t) = ground (arith, count-delete_rows wh t)

  count-update_rows :
      (wh : Where G) (vs : Row Float) (t : Table Float)
      → (update_rows G wh vs t).1 ≡ length (matching G wh t)
  unfolding update_rows
  count-update_rows wh vs [] = refl
  count-update_rows wh vs ((id, row) ∷ t) = ground (arith, count-update_rows wh vs t)

  abbrev pub spared : Where G → Option (Row Float) → Option (Row Float)
  spared wh none = none
  spared wh (some row) = if match_where G row wh then none else some row

  abbrev pub rewritten : Where G → Row Float → Option (Row Float) → Option (Row Float)
  rewritten wh vs none = none
  rewritten wh vs (some row) = if match_where G row wh then some (assign vs row) else some row

  lookup-delete_rows :
      (wh : Where G) (id : String) (t : Table Float)
      → IsMap t
      → lookup id (delete_rows G wh t).0 ≡ spared wh (lookup id t)
  unfolding delete_rows lookup
  lookup-delete_rows wh id [] m = refl
  lookup-delete_rows wh id ((k, row) ∷ t) m =
      ground (arith, lookup-delete_rows wh id t m.1, str_iff k id, m.0)

  lookup-update_rows :
      (wh : Where G) (vs : Row Float) (id : String) (t : Table Float)
      → lookup id (update_rows G wh vs t).0 ≡ rewritten wh vs (lookup id t)
  unfolding update_rows lookup
  lookup-update_rows wh vs id [] = refl
  lookup-update_rows wh vs id ((k, row) ∷ t) = ground (arith, lookup-update_rows wh vs id t)

  -- A delete in a table that is there answers with the number of rows that a select with the same
  -- conditions finds before it, and such a select finds none after it.
  pub delete-select :
      (name : String) (wh : Where G) (s : Store Float) (rows : List (Row Float))
      → (select G name wh s).0 ≡ ok rows
      → ((delete G name wh s).0 ≡ ok (length rows))
        × ((select G name wh (delete G name wh s).1).0 ≡ ok [])
  unfolding select delete get_table put_table
  delete-select name wh s rows e = elim (Option-cases (lookup name s.tables)) [
    | inl missing ↦ ground arith
    | inr (t, there) ↦ ground (
      arith,
      there,
      count-delete_rows wh t,
      matching-delete_rows wh t,
      lookup-insert_self name (delete_rows G wh t).0 s.tables,
    )
  ]

  -- A delete takes out the rows that meet the conditions and no other row, in the table that it
  -- names and in no other.
  pub get_row-delete :
      (name : String) (wh : Where G) (s : Store Float) (t : Table Float) (other id : String)
      → lookup name s.tables ≡ some t
      → IsMap t
      → get_row other id (delete G name wh s).1
        ≡ (if name == other then spared wh (lookup id t) else get_row other id s)
  unfolding delete get_row get_table put_table
  get_row-delete name wh s t other id there m = ground (
    arith,
    lookup-insert name other (delete_rows G wh t).0 s.tables,
    lookup-delete_rows wh id t m,
  )

  -- A row after an update: written to, or as it was.
  abbrev pub Written : Bool → Row Float → Row Float → Option (Row Float) → Type 0
  Written true vs row after =
      (row' : Row Float) × (after ≡ some row')
      × ((col : String) → lookup col row' ≡ first_of (lookup col vs) (lookup col row))
  Written false vs row after = after ≡ some row

  abbrev pub Updated :
      (Row Float → Bool) → Row Float → Option (Row Float) → Option (Row Float) → Type 0
  Updated touched vs none after = after ≡ none
  Updated touched vs (some row) after = Written (touched row) vs row after

  Written-assign :
      (b : Bool) (vs row : Row Float)
      → IsMap vs
      → Written b vs row (if b then some (assign vs row) else some row)
  Written-assign true vs row m = (assign vs row, refl, λ col. lookup-assign vs row col m)
  Written-assign false vs row m = refl

  Updated-rewritten :
      (wh : Where G) (vs : Row Float) (o : Option (Row Float))
      → IsMap vs
      → Updated (λ row. match_where G row wh) vs o (rewritten wh vs o)
  Updated-rewritten wh vs none m = refl
  Updated-rewritten wh vs (some row) m = Written-assign (match_where G row wh) vs row m

  Updated-kept : (vs : Row Float) (o : Option (Row Float)) → Updated (λ row. false) vs o o
  Updated-kept vs none = refl
  Updated-kept vs (some row) = refl

  get_row-update_at :
      (name : String) (wh : Where G) (vs : Row Float) (s : Store Float) (t : Table Float)
      (other id : String)
      → lookup name s.tables ≡ some t
      → get_row other id (update G name wh vs s).1
        ≡ (if name == other then rewritten wh vs (get_row other id s) else get_row other id s)
  unfolding update get_row get_table put_table
  get_row-update_at name wh vs s t other id there = ground (
    arith,
    str_iff name other,
    lookup-insert name other (update_rows G wh vs t).0 s.tables,
    lookup-update_rows wh vs id t,
  )

  answer-update :
      (name : String) (wh : Where G) (vs : Row Float) (s : Store Float) (t : Table Float)
      → lookup name s.tables ≡ some t
      → (update G name wh vs s).0 ≡ ok (length (matching G wh t))
  unfolding update get_table put_table
  answer-update name wh vs s t there = ground (arith, count-update_rows wh vs t)

  Updated-at :
      (b : Bool) (wh : Where G) (vs : Row Float) (o : Option (Row Float))
      → IsMap vs
      → Updated (λ row. b && match_where G row wh) vs o (if b then rewritten wh vs o else o)
  Updated-at true wh vs o m = Updated-rewritten wh vs o m
  Updated-at false wh vs o m = Updated-kept vs o

  -- An update whose values name no column twice answers with the number of rows that meet the
  -- conditions. Every row that is in the table that it names and meets them then has, in each column,
  -- the new value where there is one and else the value that it had; every other row of any table is
  -- as it was, and no row is added or taken away.
  pub get_row-update :
      (name : String) (wh : Where G) (vs : Row Float) (s : Store Float) (t : Table Float)
      (other id : String)
      → lookup name s.tables ≡ some t
      → IsMap vs
      → ((update G name wh vs s).0 ≡ ok (length (matching G wh t)))
        × Updated
            (λ row. (name == other) && match_where G row wh)
            vs
            (get_row other id s)
            (get_row other id (update G name wh vs s).1)
  get_row-update name wh vs s t other id there m = (
    answer-update name wh vs s t there,
    rw (get_row-update_at name wh vs s t other id there)
        (Updated-at (name == other) wh vs (get_row other id s) m),
  )

  -- An insert into a table that is there stores the row under the new UUID, with that UUID in its
  -- column `_uuid`, and leaves every other row as it was.
  pub get_row-insert_row :
      (id name : String) (row : Row Float) (s : Store Float) (t : Table Float) (other j : String)
      → lookup name s.tables ≡ some t
      → get_row other j (insert_row id name row s).1 ≡ (
          if (name == other) && (id == j)
          then some (insert "_uuid" (tagged "uuid" (str id)) row)
          else get_row other j s)
  unfolding insert_row get_row get_table put_table
  get_row-insert_row id name row s t other j there = ground (
    arith,
    str_iff name other,
    lookup-insert name other (insert id (insert "_uuid" (tagged "uuid" (str id)) row) t) s.tables,
    lookup-insert id j (insert "_uuid" (tagged "uuid" (str id)) row) t,
  )
