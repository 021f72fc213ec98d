-- ===== src/Ovsdb/Rollback.antt =====
-- `rollback` and the snapshots of ovn-sim/internal/ovsdb/transact.go.
use cirrus_sim.Base.{
  String, List, [], ◌∷◌, ◌≡◌, refl, Option, none, some, is_some, inl, inr, Option-cases, Bool-cases,
  arith, string_eq, str_iff, if◌then◌else◌, ◌&&◌, ◌⊎◌,
}
use cirrus_sim.Base.Dict.{Dict, lookup, IsMap, lookup-insert, insert-IsMap, lookup-insert_self}
use cirrus_sim.Ovsdb.Store.{Store, Table, put_table}
use cirrus_sim.Ovsdb.Touches.{Touches}
use cirrus_sim.Ovsdb.Transact.{TransactOp, rollback, snapshots, remember}

module _ {Φ : Type 0} where
  -- Every operation's table is in the snapshots, if the store has it.
  abbrev pub IsCovered : Dict String (Table Φ) → Store Φ → String → Type 0
  IsCovered snaps s name =
      (lookup name s.tables ≡ none) ⊎ ((t : Table Φ) × (lookup name snaps ≡ some t))

  abbrev pub Covers : Dict String (Table Φ) → Store Φ → List (TransactOp Φ) → Type 0
  Covers snaps s [] = Unit {0}
  Covers snaps s (op ∷ ops) = IsCovered snaps s op.table × Covers snaps s ops

  abbrev pub IsOld : Dict String (Table Φ) → Store Φ → Type 0
  IsOld snaps s =
      (name : String) (t : Table Φ) → lookup name snaps ≡ some t → lookup name s.tables ≡ some t

  -- `t` differs from `s` only in tables that are in the snapshots, and has the same tables.
  abbrev pub Drifts : Dict String (Table Φ) → Store Φ → Store Φ → Type 0
  Drifts snaps s t =
      (name : String)
      → (is_some (lookup name t.tables) ≡ is_some (lookup name s.tables))
        × (lookup name snaps ≡ none → lookup name t.tables ≡ lookup name s.tables)

  lookup-rollback :
      (snaps : Dict String (Table Φ)) (s : Store Φ) (name : String)
      → IsMap snaps
      → lookup name (rollback snaps s).tables ≡ (
          if is_some (lookup name snaps) && is_some (lookup name s.tables)
          then lookup name snaps
          else lookup name s.tables)
  unfolding rollback lookup put_table
  lookup-rollback [] s name m = refl
  lookup-rollback ((k, rows) ∷ snaps) s name m = elim (Bool-cases (is_some (lookup k s.tables))) [
    | inl there ↦ ground (
      arith,
      there,
      lookup-rollback snaps (put_table k rows s) name m.1,
      lookup-insert k name rows s.tables,
      str_iff k name,
      m.0,
    )
    | inr missing ↦ ground (arith, missing, lookup-rollback snaps s name m.1, str_iff k name, m.0)
  ]

  remember-IsMap :
      (name : String) (snaps : Dict String (Table Φ)) (known found : Option (Table Φ))
      → IsMap snaps
      → IsMap (remember name known found snaps)
  remember-IsMap name snaps (some t) found m = m
  remember-IsMap name snaps none none m = m
  remember-IsMap name snaps none (some t) m = insert-IsMap name t snaps m

  pub snapshots-IsMap :
      (ops : List (TransactOp Φ)) (s : Store Φ) (snaps : Dict String (Table Φ))
      → IsMap snaps
      → IsMap (snapshots ops s snaps)
  unfolding snapshots
  snapshots-IsMap [] s snaps m = m
  snapshots-IsMap (op ∷ ops) s snaps m =
      snapshots-IsMap ops s
        (remember op.table (lookup op.table snaps) (lookup op.table s.tables) snaps)
        (remember-IsMap op.table snaps (lookup op.table snaps) (lookup op.table s.tables) m)

  remember-IsOld :
      (op : String) (s : Store Φ) (snaps : Dict String (Table Φ)) (known found : Option (Table Φ))
      → lookup op s.tables ≡ found
      → IsOld snaps s
      → IsOld (remember op known found snaps) s
  remember-IsOld op s snaps (some u) found f h name t e = h name t e
  remember-IsOld op s snaps none none f h name t e = h name t e
  remember-IsOld op s snaps none (some u) f h name t e =
      ground (arith, lookup-insert op name u snaps, str_iff op name, h name t)

  pub snapshots-IsOld :
      (ops : List (TransactOp Φ)) (s : Store Φ) (snaps : Dict String (Table Φ))
      → IsOld snaps s
      → IsOld (snapshots ops s snaps) s
  unfolding snapshots
  snapshots-IsOld [] s snaps h = h
  snapshots-IsOld (op ∷ ops) s snaps h =
      snapshots-IsOld ops s
        (remember op.table (lookup op.table snaps) (lookup op.table s.tables) snaps)
        (remember-IsOld op.table s snaps (lookup op.table snaps) (lookup op.table s.tables) refl h)

  -- A name that is in the snapshots stays, whatever is added.
  lookup-remember :
      (op name : String) (snaps : Dict String (Table Φ)) (found : Option (Table Φ)) (t : Table Φ)
      → lookup name snaps ≡ some t
      → lookup name (remember op (lookup op snaps) found snaps) ≡ some t
  lookup-remember op name snaps found t e = elim (Option-cases (lookup op snaps)) [
    | inr (u, known) ↦ rw known e
    | inl new ↦ rw new (added new found)
  ]
    where
      added :
          lookup op snaps ≡ none
          → (found : Option (Table Φ)) → lookup name (remember op none found snaps) ≡ some t
      added new none = e
      added new (some u) = ground (arith, lookup-insert op name u snaps, str_iff op name)

  lookup-snapshots :
      (ops : List (TransactOp Φ)) (s : Store Φ) (snaps : Dict String (Table Φ)) (name : String)
      (t : Table Φ)
      → lookup name snaps ≡ some t
      → lookup name (snapshots ops s snaps) ≡ some t
  unfolding snapshots
  lookup-snapshots [] s snaps name t e = e
  lookup-snapshots (op ∷ ops) s snaps name t e =
      lookup-snapshots ops s
        (remember op.table (lookup op.table snaps) (lookup op.table s.tables) snaps) name t
        (lookup-remember op.table name snaps (lookup op.table s.tables) t e)

  remember-IsCovered :
      (name : String) (s : Store Φ) (snaps : Dict String (Table Φ)) (known found : Option (Table Φ))
      → lookup name snaps ≡ known
      → lookup name s.tables ≡ found
      → IsCovered (remember name known found snaps) s name
  remember-IsCovered name s snaps (some t) found k f = inr (t, k)
  remember-IsCovered name s snaps none none k f = inl f
  remember-IsCovered name s snaps none (some t) k f = inr (t, lookup-insert_self name t snaps)

  pub snapshots-Covers :
      (ops : List (TransactOp Φ)) (s : Store Φ) (snaps : Dict String (Table Φ))
      → Covers (snapshots ops s snaps) s ops
  unfolding snapshots
  snapshots-Covers [] s snaps = tt
  snapshots-Covers (op ∷ ops) s snaps =
      let snaps' = remember op.table (lookup op.table snaps) (lookup op.table s.tables) snaps in
      (
        (elim (remember-IsCovered op.table s snaps (lookup op.table snaps)
            (lookup op.table s.tables) refl refl) [
              | inl missing ↦ inl missing
              | inr (t, e) ↦ inr (t, lookup-snapshots ops s snaps' op.table t e)
            ]),
        snapshots-Covers ops s snaps',
      )

  pub restored :
      (snaps : Dict String (Table Φ)) (s t : Store Φ) (name : String)
      → IsMap snaps
      → IsOld snaps s
      → Drifts snaps s t
      → lookup name (rollback snaps t).tables ≡ lookup name s.tables
  restored snaps s t name m old drift = elim (Option-cases (lookup name snaps)) [
    | inl none' ↦ ground (arith, none', lookup-rollback snaps t name m, (drift name).1 none')
    | inr (rows, known) ↦
        ground (arith, known, lookup-rollback snaps t name m, (drift name).0, old name rows known)
  ]

  pub Touches-Drifts :
      (snaps : Dict String (Table Φ)) (s t t' : Store Φ) (table : String)
      → IsCovered snaps s table
      → Drifts snaps s t
      → Touches table t t'
      → Drifts snaps s t'
  unfolding put_table
  Touches-Drifts snaps s t t' table cover drift (inl same) name = rw same (drift name)
  Touches-Drifts snaps s t t' table cover drift (inr (u, u', there, put)) name = rw put (
    ground (arith, there, lookup-insert table name u' t.tables, str_iff table name, (drift name).0),
    (λ new. ground (
      arith,
      there,
      new,
      cover,
      lookup-insert table name u' t.tables,
      str_iff table name,
      (drift name).1 new,
      (drift table).0,
    )),
  )
