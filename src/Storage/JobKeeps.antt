-- ===== src/Storage/JobKeeps.antt =====
-- The goroutines of storage-sim/internal/state/store.go, the calls that start and cancel them, and the
-- accounts.
use cirrus_sim.Base.{
  refl, String, Option-cases, arith, inl, inr, Bool-cases, ltb, ◌&&◌, is_some, string_eq,
}
use cirrus_sim.Storage.Types.{Volume, Ratios, Time, Store}
use cirrus_sim.Storage.Flatten.{step_flatten, FlattenThread, start_flatten}
use cirrus_sim.Storage.Migration.{start_migration, cancel_migration}
use cirrus_sim.Storage.Consistent.{IsConsistent}
use cirrus_sim.Storage.Rewrites.{Rewrites, Rewrites-IsConsistent, IsConsistent-of}
use cirrus_sim.Base.Dict.{lookup}

detached : Volume → Volume
detached v = record v { consumed_gb = v.size_gb; parent_snapshot_id = "" }

module _ (F : Ratios) where
  open F use {Ratio}

  pub start_flatten-IsConsistent :
      (id : String) (now : Time) (s : Store Ratio)
      → IsConsistent s
      → IsConsistent (start_flatten id now s).1
  unfolding start_flatten
  start_flatten-IsConsistent id now s = IsConsistent-of s _ (ground arith) (ground arith)

  step_flatten-Rewrites :
      (t : FlattenThread) (now : Time) (s : Store Ratio)
      → Rewrites t.volume_id s (step_flatten F t now s).0
  unfolding step_flatten detached
  step_flatten-Rewrites t now s = elim (Option-cases (lookup t.volume_id s.volumes)) [
    | inl missing ↦ inl (ground arith, ground arith)
    | inr (v, e) ↦ elim (Bool-cases (ltb 10 t.round && is_some (lookup t.op_id s.operations))) [
      | inl last ↦ inr (v, detached v, e, refl, refl, refl, ground arith, ground arith)
      | inr more ↦ inl (ground arith, ground arith)
    ]
  ]

  pub step_flatten-IsConsistent :
      (t : FlattenThread) (now : Time) (s : Store Ratio)
      → IsConsistent s
      → IsConsistent (step_flatten F t now s).0
  step_flatten-IsConsistent t now s =
      Rewrites-IsConsistent t.volume_id s _ (step_flatten-Rewrites t now s)

  pub start_migration-IsConsistent :
      (id dest : String) (now : Time) (s : Store Ratio)
      → IsConsistent s
      → IsConsistent (start_migration F id dest now s).1
  unfolding start_migration
  start_migration-IsConsistent id dest now s = IsConsistent-of s _ (ground arith) (ground arith)

module _ {R : Type 0} where
  pub cancel_migration-IsConsistent :
      (id : String) (s : Store R) → IsConsistent s → IsConsistent (cancel_migration id s).1
  unfolding cancel_migration
  cancel_migration-IsConsistent id s = IsConsistent-of s _ (ground arith) (ground arith)
