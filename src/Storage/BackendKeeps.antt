-- ===== src/Storage/BackendKeeps.antt =====
-- The operations on backends, the configuration and `Reset` of storage-sim/internal/state/store.go,
-- and the accounts.
use cirrus_sim.Base.{
  ◌≡◌, refl, String, ◌⊎◌, inl, some, none, inr, Option-cases, Bool-cases, arith, ◌==◌, string_eq,
  str_iff, ◌||◌, is_some,
}
use cirrus_sim.Storage.Types.{Ratios, Store, SimConfig, Backend}
use cirrus_sim.Storage.Backends.{
  set_config, put_backend, reset, set_backend_state, add_backend, with_defaults, new_store,
}
use cirrus_sim.Storage.Consistent.{IsConsistent, new_store-IsConsistent}
use cirrus_sim.Base.Dict.{lookup, insert-IsMap, total, lookup-insert, total_zero}
use cirrus_sim.Storage.Accounting.{Accounts, alloc_on, used_on}
use cirrus_sim.Storage.Rewrites.{IsConsistent-of}

module _ {R : Type 0} where
  set_backend_state-keeps :
      (id state : String) (s : Store R)
      → ((set_backend_state id state s).1 ≡ s)
        ⊎ ((b : Backend R) × (lookup id s.backends ≡ some b)
            × ((set_backend_state id state s).1 ≡ put_backend id (record b { state = state }) s))
  unfolding set_backend_state
  set_backend_state-keeps id state s = elim (Option-cases (lookup id s.backends)) [
    | inl missing ↦ inl (ground arith)
    | inr (b, e) ↦ inr (b, e, ground arith)
  ]

  -- A backend written anew, with the capacities that the accounts ask for.
  put_backend-IsConsistent :
      (id : String) (b : Backend R) (s : Store R)
      → IsConsistent s
      → Accounts s.volumes id b
      → IsConsistent (put_backend id b s)
  unfolding put_backend
  put_backend-IsConsistent id b s c a = record {
    backend_map = insert-IsMap id b s.backends c.backend_map;
    volume_map = c.volume_map;
    balanced =
        λ k d ed. ground (arith, lookup-insert id k b s.backends, str_iff id k, c.balanced k d);
    homed = λ k v ev. ground (arith, lookup-insert id v.backend_id b s.backends, c.homed k v);
  }

  pub set_backend_state-IsConsistent :
      (id state : String) (s : Store R)
      → IsConsistent s
      → IsConsistent (set_backend_state id state s).1
  set_backend_state-IsConsistent id state s c = elim (set_backend_state-keeps id state s) [
    | inl e ↦ rw e c
    | inr (b, eb, e) ↦ rw e (
        put_backend-IsConsistent id _ s c
          (record { allocated = (c.balanced id b eb).allocated; used = (c.balanced id b eb).used }))
  ]

  pub reset-IsConsistent : (s : Store R) → IsConsistent (reset s)
  unfolding reset
  reset-IsConsistent s = IsConsistent-of new_store _ refl refl new_store-IsConsistent

  pub set_config-IsConsistent :
      (cfg : SimConfig) (s : Store R) → IsConsistent s → IsConsistent (set_config cfg s)
  unfolding set_config
  set_config-IsConsistent cfg s c = IsConsistent-of s _ refl refl c

module _ (F : Ratios) where
  open F use {Ratio}

  add_backend-keeps :
      (b : Backend Ratio) (s : Store Ratio)
      → ((add_backend F b s).1 ≡ s)
        ⊎ ((lookup b.backend_id s.backends ≡ none)
            × ((add_backend F b s).1 ≡ put_backend b.backend_id (with_defaults F b) s))
  unfolding add_backend
  add_backend-keeps b s =
      elim (Bool-cases (b.backend_id == "" || is_some (lookup b.backend_id s.backends))) [
        | inl refused ↦ inl (ground arith)
        | inr new ↦ inr (ground arith, ground arith)
      ]

  -- No volume lies on a backend that is not there, so a new backend starts with empty accounts.
  pub add_backend-IsConsistent :
      (b : Backend Ratio) (s : Store Ratio)
      → b.allocated_capacity_gb ≡ 0
      → b.used_capacity_gb ≡ 0
      → IsConsistent s
      → IsConsistent (add_backend F b s).1
  unfolding with_defaults
  add_backend-IsConsistent b s ea eu c = elim (add_backend-keeps b s) [
    | inl e ↦ rw e c
    | inr (fresh, e) ↦
        let none_alloc : total (alloc_on b.backend_id) s.volumes ≡ 0 =
          total_zero (alloc_on b.backend_id) s.volumes c.volume_map
            (λ k v found. ground (arith, c.homed k v found, str_iff v.backend_id b.backend_id)) in
        let none_used : total (used_on b.backend_id) s.volumes ≡ 0 =
          total_zero (used_on b.backend_id) s.volumes c.volume_map
            (λ k v found. ground (arith, c.homed k v found, str_iff v.backend_id b.backend_id)) in
        rw e (
          put_backend-IsConsistent b.backend_id _ s c
            (record { allocated = rw (ea, none_alloc) refl; used = rw (eu, none_used) refl }))
  ]
