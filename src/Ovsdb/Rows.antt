-- ===== src/Ovsdb/Rows.antt =====
-- ovn-sim/internal/ovsdb/store.go: a row, and the conditions that select rows.
use cirrus_sim.Base.{
  String, List, [], ◌∷◌, Bool, true, false, not, if◌then◌else◌, ◌==◌, Option, some, none, string_eq,
}
use cirrus_sim.Base.Dict.{Dict, lookup}
use cirrus_sim.Ovsdb.Json.{Value, Items, GoValues, null, num, str, arr, nil, cons}
use Prim.Native.String.{compare}
use Prim.Native.Nat.{Ordering}

abbrev pub Row : Type 0 → Type 0
Row Φ = Dict String (Value Φ)

-- `normalizeForCompare`: `["uuid", x]` stands for `x`
unfoldable pub normalize : {Φ : Type 0} → Value Φ → Value Φ
normalize (arr (cons (str tag) (cons v nil))) =
    if tag == "uuid" then v else arr (cons (str tag) (cons v nil))
normalize v = v

-- the elements of `["set", […]]`, for the three nested type tests
unfoldable pub set_elems : {Φ : Type 0} → Value Φ → Option (Items Φ)
set_elems (arr (cons (str tag) (cons (arr vs) nil))) = if tag == "set" then some vs else none
set_elems v = none

-- A missing column reads as `nil`.
abbrev pub or_nil : {Φ : Type 0} → Option (Value Φ) → Value Φ
or_nil none = null
or_nil (some v) = v

unfoldable pub column : {Φ : Type 0} → Row Φ → String → Value Φ
column row col = or_nil (lookup col row)

-- what `as < bs` and `as > bs` decide, on texts
unfoldable pub text_lt : String → String → Bool
text_lt a b = elim (compare a b) [ Ordering.lt ↦ true | _ ↦ false ]

module _ (G : GoValues) where
  open G use {Float, float_lt, show}

  -- the three results of `compareValues`, -1, 0 and 1
  unfoldable pub compare_texts : String → String → Ordering
  unfolding text_lt
  compare_texts a b =
      if text_lt a b then Ordering.lt else if text_lt b a then Ordering.gt else Ordering.eq

  unfoldable pub compare_values : Value Float → Value Float → Ordering
  unfolding compare_texts
  compare_values (num a) (num b) =
      if float_lt a b then Ordering.lt else if float_lt b a then Ordering.gt else Ordering.eq
  compare_values a b = compare_texts (show a) (show b)

  -- `fmt.Sprintf("%v", normalizeForCompare(v))`
  unfoldable pub text_of : Value Float → String
  unfolding normalize
  text_of v = show (normalize v)

  unfoldable pub holds_text : Items Float → String → Bool
  unfolding text_of
  holds_text nil s = false
  holds_text (cons v vs) s = if text_of v == s then true else holds_text vs s

  unfoldable pub set_includes : Value Float → Value Float → Bool
  unfolding set_elems text_of holds_text
  set_includes actual expected = elim (set_elems actual) [
    | some vs ↦ holds_text vs (text_of expected)
    | none ↦ text_of actual == text_of expected
  ]

  unfoldable pub is_lt : Ordering → Bool
  is_lt Ordering.lt = true
  is_lt _ = false

  unfoldable pub is_eq : Ordering → Bool
  is_eq Ordering.eq = true
  is_eq _ = false

  unfoldable pub is_gt : Ordering → Bool
  is_gt Ordering.gt = true
  is_gt _ = false

  unfoldable pub eval_condition : Value Float → String → Value Float → Bool
  unfolding compare_values normalize set_includes is_lt is_eq is_gt
  eval_condition actual fn expected =
      let c = compare_values (normalize actual) (normalize expected) in
      if fn == "=="
      then is_eq c
      else if fn == "!="
      then not (is_eq c)
      else if fn == "<"
      then is_lt c
      else if fn == ">"
      then is_gt c
      else if fn == "<="
      then not (is_gt c)
      else if fn == ">="
      then not (is_lt c)
      else if fn == "includes"
      then set_includes actual expected
      else if fn == "excludes"
      then not (set_includes actual expected)
      else false

  -- `s, _ := v.(string)`
  unfoldable pub text_or_empty : Value Float → String
  text_or_empty (str s) = s
  text_or_empty v = ""

  -- one round of the loop in `matchWhere`; a `!=` on a missing column holds
  unfoldable pub meets : Row Float → Value Float → Bool
  unfolding eval_condition text_or_empty
  meets row (arr (cons c (cons f (cons expected nil)))) = elim (lookup (text_or_empty c) row) [
    | none ↦ if text_or_empty f == "==" then false else text_or_empty f == "!="
    | some actual ↦ eval_condition actual (text_or_empty f) expected
  ]
  meets row cond = false

  unfoldable pub match_where : Row Float → List (Value Float) → Bool
  unfolding meets
  match_where row [] = true
  match_where row (cond ∷ conds) = if meets row cond then match_where row conds else false
