-- ===== src/Ovsdb/Json.antt =====
-- What `encoding/json` decodes an `interface{}` to, and the parts of Go's library that
-- ovn-sim/internal/ovsdb/store.go computes with: `float64` and the text that `%v` prints.
use cirrus_sim.Base.{String, List, [], ◌∷◌, Bool, ◌≡◌, refl, ap}
use cirrus_sim.Base.Int64.{Int64}

-- `nil`, a `bool`, a `float64`, a `string`, a `[]interface{}` and a `map[string]interface{}`
mutual
  pub data Value (Φ : Type 0) : Type 0 where
    null : Value Φ
    bool : Bool → Value Φ
    num : Φ → Value Φ
    str : String → Value Φ
    arr : Items Φ → Value Φ
    obj : Fields Φ → Value Φ

  pub data Items (Φ : Type 0) : Type 0 where
    nil : Items Φ
    cons : Value Φ → Items Φ → Items Φ

  pub data Fields (Φ : Type 0) : Type 0 where
    end : Fields Φ
    field : String → Value Φ → Fields Φ → Fields Φ

-- `float64`, and `fmt.Sprintf("%v", v)`
pub record GoValues : Type 1 where
  pub Float : Type 0
  pub float_lt : Float → Float → Bool
  pub is_zero : Float → Bool
  pub add : Float → Float → Float
  pub sub : Float → Float → Float
  pub mul : Float → Float → Float
  pub div : Float → Float → Float
  -- `int64(f)` and `float64(n)`
  pub to_int64 : Float → Int64
  pub of_int64 : Int64 → Float
  pub show : Value Float → String

module _ {Φ : Type 0} where
  abbrev pub elems : Items Φ → List (Value Φ)
  elems nil = []
  elems (cons v vs) = v ∷ elems vs

  abbrev pub items : List (Value Φ) → Items Φ
  items [] = nil
  items (v ∷ vs) = cons v (items vs)

  pub elems-items : (vs : List (Value Φ)) → elems (items vs) ≡ vs
  elems-items [] = refl
  elems-items (v ∷ vs) = ap (λ l. v ∷ l) (elems-items vs)

  -- `[]interface{}{tag, v}`
  abbrev pub tagged : String → Value Φ → Value Φ
  tagged tag v = arr (cons (str tag) (cons v nil))

  abbrev pub set_of : Items Φ → Value Φ
  set_of vs = tagged "set" (arr vs)
