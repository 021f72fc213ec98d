-- ===== src/Server/ParamLaws.antt =====
-- The typed parameters of libvirt-sim/internal/rpc/handlers_migration.go, as a client writes them.
use cirrus_sim.Server.Migrations.{
  Params, read_params_from, read_param, set_param, string_param, read_params, no_params,
}
use cirrus_sim.Server.Types.{Externals}
use cirrus_sim.Base.{
  String, ℕ, List, length, ◌<◌, ◌∷◌, [], ◌++◌, ◌^◌, ◌≡◌, ◌≢◌, sym, arith, refl, ◌∙◌, ap,
}
use cirrus_sim.Rpc.Words.{Bytes, put_uint32, put_uint64}
use cirrus_sim.Rpc.At.{at, read_int32-at, read_uint64-at, read_uint32-at}
use cirrus_sim.Rpc.RoundTrip.{string_bytes, read_string-at}
use cirrus_sim.Base.Exec.{ok, bind-ok}
use cirrus_sim.Base.ListLaws.{append_assoc, append_nil}
use cirrus_sim.Rpc.Decoder.{new_decoder}

-- a parameter with a string, or with another type and eight bytes
pub data Param : Type 0 where
  text_param : (field value : String) → Param
  other_param : (field : String) (kind value : ℕ) → Param

-- the parameters that the list sets, the last one of a name
abbrev pub collected : Params → List Param → Params
collected p [] = p
collected p (text_param field value ∷ ps) = collected (set_param field value p) ps
collected p (other_param field kind value ∷ ps) = collected p ps

collected-cons :
    (p : Params) (q : Param) (ps : List Param)
    → collected p (q ∷ ps) ≡ collected (collected p (q ∷ [])) ps
collected-cons p (text_param field value) ps = refl
collected-cons p (other_param field kind value) ps = refl

module _ (X : Externals) where
  abbrev pub param_bytes : Param → Bytes
  param_bytes (text_param field value) =
      string_bytes (X.bytes field) ++ (put_uint32 string_param ++ string_bytes (X.bytes value))
  param_bytes (other_param field kind value) =
      string_bytes (X.bytes field) ++ (put_uint32 kind ++ put_uint64 value)

  abbrev pub params_bytes : List Param → Bytes
  params_bytes [] = []
  params_bytes (p ∷ ps) = param_bytes p ++ params_bytes ps

  -- what fits the wire
  abbrev pub Fits : Param → Type 0
  Fits (text_param field value) =
      (length (X.bytes field) < 2 ^ 32) × (length (X.bytes value) < 2 ^ 32)
  Fits (other_param field kind value) =
      (length (X.bytes field) < 2 ^ 32) × (kind < 2 ^ 32) × (kind ≢ string_param) × (value < 2 ^ 64)

  abbrev pub AllFit : List Param → Type 0
  AllFit [] = Unit {0}
  AllFit (p ∷ ps) = Fits p × AllFit ps

  read_param-at :
      (front rest : Bytes) (q : Param) (p : Params)
      → Fits q
      → read_param X p (at front (param_bytes q ++ rest))
        ≡ (ok (collected p (q ∷ [])), at (front ++ param_bytes q) rest)
  unfolding read_param
  read_param-at front rest (text_param field value) p fits =
      let f = string_bytes (X.bytes field) in
      let v = string_bytes (X.bytes value) in
      let k = put_uint32 string_param in
      rw
        (
          append_assoc f (k ++ v) rest,
          append_assoc k v rest,
          sym (append_assoc front f (k ++ v)),
          sym (append_assoc (front ++ f) k v),
        )
        (ground (
          arith,
          read_string-at front (X.bytes field) (k ++ (v ++ rest)) fits.0,
          read_int32-at (front ++ f) string_param (v ++ rest) (omega arith),
          read_string-at ((front ++ f) ++ k) (X.bytes value) rest fits.1,
          X.text-bytes field,
          X.text-bytes value,
        ))
  read_param-at front rest (other_param field kind value) p fits =
      let f = string_bytes (X.bytes field) in
      let v = put_uint64 value in
      let k = put_uint32 kind in
      rw
        (
          append_assoc f (k ++ v) rest,
          append_assoc k v rest,
          sym (append_assoc front f (k ++ v)),
          sym (append_assoc (front ++ f) k v),
        )
        (ground (
          arith,
          read_string-at front (X.bytes field) (k ++ (v ++ rest)) fits.0,
          read_int32-at (front ++ f) kind (v ++ rest) fits.1,
          read_uint64-at ((front ++ f) ++ k) value rest fits.3,
        ))

  read_params_from-at :
      (front rest : Bytes) (ps : List Param) (p : Params)
      → AllFit ps
      → read_params_from X (length ps) p (at front (params_bytes ps ++ rest))
        ≡ (ok (collected p ps), at (front ++ params_bytes ps) rest)
  unfolding read_params_from
  read_params_from-at front rest [] p fits = rw (append_nil front) refl
  read_params_from-at front rest (q ∷ ps) p fits =
      rw
        (
          append_assoc (param_bytes q) (params_bytes ps) rest,
          sym (append_assoc front (param_bytes q) (params_bytes ps)),
        )
        (bind-ok (read_param X p) (read_params_from X (length ps))
            (at front (param_bytes q ++ (params_bytes ps ++ rest)))
            (read_param-at front (params_bytes ps ++ rest) q p fits.0)
          ∙ read_params_from-at (front ++ param_bytes q) rest ps (collected p (q ∷ [])) fits.1
          ∙ ap (λ c. (ok c, at ((front ++ param_bytes q) ++ params_bytes ps) rest))
              (sym (collected-cons p q ps)))

  -- The typed parameters of a migration call are read back as they were written, with anything behind
  -- them, where there are less than 2 ^ 32 and each fits its place on the wire: the domain's name and
  -- identifier are the last ones that are given, and parameters of other names and types are passed over.
  pub read_params-params_bytes :
      (ps : List Param) (rest : Bytes)
      → length ps < 2 ^ 32
      → AllFit ps
      → (read_params X (new_decoder (put_uint32 (length ps) ++ (params_bytes ps ++ rest)))).0
        ≡ ok (collected no_params ps)
  unfolding read_params new_decoder
  read_params-params_bytes ps rest few fits = ground (
    arith,
    read_uint32-at [] (length ps) (params_bytes ps ++ rest) few,
    read_params_from-at (put_uint32 (length ps)) rest ps no_params fits,
  )
