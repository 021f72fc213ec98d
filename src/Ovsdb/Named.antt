-- ===== src/Ovsdb/Named.antt =====
-- The named UUIDs of ovn-sim/internal/ovsdb/transact.go: the names that stand for the rows inserted
-- before in a transaction.
use cirrus_sim.Base.{String, List, [], ◌∷◌, if◌then◌else◌, ◌==◌, Option, none, some, string_eq}
use cirrus_sim.Base.Dict.{Dict, lookup}
use cirrus_sim.Ovsdb.Json.{Value, Items, str, arr, nil, cons, tagged, set_of}
use cirrus_sim.Ovsdb.Rows.{Row}

module _ {Φ : Type 0} where
  -- `named[name]`, where the value is `["named-uuid", name]`
  abbrev pub resolve_name : Value Φ → Option String → Value Φ
  resolve_name v none = v
  resolve_name v (some id) = tagged "uuid" (str id)

  -- `resolveNamedUUIDValue`: a name, and the names in a set, in sets of sets too
  unfoldable mutual
    pub resolve : Dict String String → Value Φ → Value Φ
    resolve named (arr (cons (str tag) (cons (str name) nil))) =
        if tag == "named-uuid"
        then resolve_name (tagged tag (str name)) (lookup name named)
        else tagged tag (str name)
    resolve named (arr (cons (str tag) (cons (arr vs) nil))) =
        let vs' = resolve_items named vs in if tag == "set" then set_of vs' else tagged tag (arr vs)
    resolve named v = v

    pub resolve_items : Dict String String → Items Φ → Items Φ
    resolve_items named nil = nil
    resolve_items named (cons v vs) = cons (resolve named v) (resolve_items named vs)

  unfoldable pub resolve_row : Dict String String → Row Φ → Row Φ
  unfolding resolve
  resolve_row named [] = []
  resolve_row named ((k, v) ∷ row) = (k, resolve named v) ∷ resolve_row named row

  abbrev pub resolve_condition : Dict String String → Value Φ → Value Φ
  unfolding resolve
  resolve_condition named (arr (cons c (cons f (cons v nil)))) =
      arr (cons c (cons f (cons (resolve named v) nil)))
  resolve_condition named cond = cond

  unfoldable pub resolve_where : Dict String String → List (Value Φ) → List (Value Φ)
  unfolding resolve_condition
  resolve_where named [] = []
  resolve_where named (cond ∷ conds) = resolve_condition named cond ∷ resolve_where named conds
