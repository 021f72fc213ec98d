-- ===== src/Storage/Backends.antt =====
-- storage-sim/internal/state/store.go: the store's life cycle, its configuration and its backends.
use cirrus_sim.Base.{
  String, Bool, none, some, List, [], ◌==◌, nat_eq, string_eq, length, keep_if, is_some,
  if◌then◌else◌,
}
use cirrus_sim.Base.Int64.{Int64, add64, sub64, slt}
use cirrus_sim.Base.Dict.{lookup, insert, values}
use cirrus_sim.Base.Exec.{◌>>=◌, ◌>>◌, gets, or_raise, raise_if, modify}
use cirrus_sim.Storage.Types.{
  Ratios, Backend, Volume, SimConfig, Stats, Store, Action, backend_active, volume_in_use,
  empty_backend_id, backend_exists, backend_not_found,
}

abbrev pub default_config : SimConfig
default_config = record {
  default_latency_ms = 2;
  flatten_per_gb_ms = 100;
  migration_per_gb_ms = 200;
}

module _ {R : Type 0} where
  -- `NewStore`
  abbrev pub new_store : Store R
  new_store = record {
    backends = [];
    volumes = [];
    snapshots = [];
    operations = [];
    migrations = [];
    config = default_config;
    op_counter = 0;
  }

  -- `Reset`: every field is given anew.
  unfoldable pub reset : Store R → Store R
  reset s = record s {
    backends = [];
    volumes = [];
    snapshots = [];
    operations = [];
    migrations = [];
    config = default_config;
    op_counter = 0;
  }

  unfoldable pub set_config : SimConfig → Store R → Store R
  set_config cfg s = record s { config = cfg }

  -- `s.backends[id]`, or the error
  unfoldable pub get_backend : String → Action R (Backend R)
  get_backend id = do found ← gets (λ s. lookup id s.backends); or_raise found backend_not_found

  -- a write through the pointer that the map holds for `id`
  unfoldable pub put_backend : String → Backend R → Store R → Store R
  put_backend id b s = record s { backends = insert id b s.backends }

  unfoldable pub put_volume : String → Volume → Store R → Store R
  put_volume id v s = record s { volumes = insert id v s.volumes }

  -- Go's order of a map is not fixed; the model lists it in the order of the keys' insertion.
  unfoldable pub list_backends : Store R → List (Backend R)
  list_backends s = values s.backends

  unfoldable pub set_backend_state : String → String → Action R (Unit {0})
  unfolding put_backend get_backend
  set_backend_state id state = do
    b ← get_backend id
    modify (put_backend id (record b { state = state }))

  -- `exportCount` of the loop in `GetStats`
  unfoldable pub get_stats : Store R → Stats
  get_stats s = record {
    backend_count = length s.backends;
    volume_count = length s.volumes;
    export_count = length (keep_if (λ v. v.state == volume_in_use) (values s.volumes));
  }

module _ (F : Ratios) where
  open F use {Ratio, is_zero, one, scale}

  -- the two defaults of `AddBackend`
  unfoldable pub with_defaults : Backend Ratio → Backend Ratio
  with_defaults b = record b {
    state = if b.state == "" then backend_active else b.state;
    overprovision_ratio = if is_zero b.overprovision_ratio then one else b.overprovision_ratio;
  }

  unfoldable pub add_backend : Backend Ratio → Action Ratio (Unit {0})
  unfolding put_backend
  add_backend b = do
    raise_if (b.backend_id == "") empty_backend_id
    found ← gets (λ s. lookup b.backend_id s.backends)
    raise_if (is_some found) backend_exists
    modify (put_backend b.backend_id (with_defaults b))

  unfoldable pub max_alloc : Backend Ratio → Int64
  max_alloc b = scale b.total_capacity_gb b.overprovision_ratio

  -- the capacity test for `size` more on `b`: against the overprovisioned total for a thin volume,
  -- against the total for a thick one
  unfoldable pub exceeds : Bool → Backend Ratio → Int64 → Bool
  unfolding max_alloc
  exceeds thin b size =
      if thin
      then slt (max_alloc b) (add64 b.allocated_capacity_gb size)
      else slt b.total_capacity_gb (add64 b.used_capacity_gb size)

module _ {R : Type 0} where
  -- `b.AllocatedCapacityGB += size`, and the used capacity too if the volume is thick
  unfoldable pub charge : Bool → Int64 → Backend R → Backend R
  charge thin size b = record b {
    allocated_capacity_gb = add64 b.allocated_capacity_gb size;
    used_capacity_gb = if thin then b.used_capacity_gb else add64 b.used_capacity_gb size;
  }

  unfoldable pub refund : Bool → Int64 → Backend R → Backend R
  refund thin size b = record b {
    allocated_capacity_gb = sub64 b.allocated_capacity_gb size;
    used_capacity_gb = if thin then b.used_capacity_gb else sub64 b.used_capacity_gb size;
  }

  -- `if b, ok := s.backends[id]; ok { … }`
  unfoldable pub update_backend : String → (Backend R → Backend R) → Store R → Store R
  update_backend id f s = elim (lookup id s.backends) [
    | none ↦ s
    | some b ↦ record s { backends = insert id (f b) s.backends }
  ]
