-- ===== src/Storage/MigrationEnds.antt =====
-- The migration goroutine of storage-sim/internal/state/store.go, alone at the store.
use mathlib.Core.Path.{subst}
use cirrus_sim.Base.{
  ℕ, ◌-◌, ◌≡◌, ◌≤◌, ◌<◌, refl, String, List, [], ◌∷◌, Option, none, some, length, suc, zero, arith,
  string_eq, nat_eq, Option-cases, Bool-cases, inl, inr, ◌⊎◌, false, ltb,
}
use cirrus_sim.Base.Exec.{ok}
use cirrus_sim.Base.Dict.{lookup, lookup-insert_self}
use cirrus_sim.Storage.Types.{
  Ratios, Time, Store, Migration, Volume, completed, failed, transferring, finishing,
}
use cirrus_sim.Storage.JobLaws.{proceed}
use cirrus_sim.Storage.Migration.{
  MigrationThread, Phase, begin, transfer, wind_up, complete, step_migration, put_migration,
  complete_migration, report_transfer, start_migration, advance, move_volume,
}
use cirrus_sim.Storage.Flatten.{since_ms}

-- How many more steps a thread takes, after the next, if its rounds are those of the code.
abbrev pub remaining : Phase → ℕ
remaining begin = 12
remaining (transfer i) = 12 - i
remaining wind_up = 1
remaining complete = 0

abbrev pub InRange : Phase → Type 0
InRange (transfer i) = i ≤ 10
InRange _ = Unit {0}

-- the migration as its last step leaves it, when the volume is there
abbrev done : MigrationThread → Migration → Time → Migration
done t mig now = record mig {
  state = completed;
  progress_percent = 100;
  bytes_transferred = t.total_bytes;
  elapsed_ms = since_ms mig.started_at now;
  estimated_remaining_ms = 0;
}

module _ {R : Type 0} where
  abbrev pub IsLive : String → Store R → Type 0
  IsLive id s = (mig : Migration) × (lookup id s.migrations ≡ some mig) × (mig.cancelled ≡ false)

  abbrev pub HasEnded : String → Store R → Type 0
  HasEnded id s =
      (mig : Migration) × (lookup id s.migrations ≡ some mig)
      × ((mig.state ≡ completed) ⊎ (mig.state ≡ failed))

  put_migration-IsLive :
      (id : String) (mig : Migration) (s : Store R)
      → mig.cancelled ≡ false
      → IsLive id (put_migration id mig s)
  unfolding put_migration
  put_migration-IsLive id mig s e = (mig, lookup-insert_self id mig s.migrations, e)

  complete_migration-there :
      (t : MigrationThread) (mig : Migration) (now : Time) (v : Volume) (s : Store R)
      → lookup t.volume_id s.volumes ≡ some v
      → complete_migration t mig now s ≡ put_migration t.mig_id (done t mig now) (move_volume t v s)
  unfolding complete_migration
  complete_migration-there t mig now v s e = ground arith

  complete_migration-missing :
      (t : MigrationThread) (mig : Migration) (now : Time) (s : Store R)
      → lookup t.volume_id s.volumes ≡ none
      → complete_migration t mig now s ≡ put_migration t.mig_id (record mig { state = failed }) s
  unfolding complete_migration
  complete_migration-missing t mig now s e = ground arith

  lookup-put_migration :
      (id : String) (mig : Migration) (s : Store R)
      → lookup id (put_migration id mig s).migrations ≡ some mig
  unfolding put_migration
  lookup-put_migration id mig s = lookup-insert_self id mig s.migrations

  complete_migration-HasEnded :
      (t : MigrationThread) (mig : Migration) (now : Time) (s : Store R)
      → HasEnded t.mig_id (complete_migration t mig now s)
  complete_migration-HasEnded t mig now s = elim (Option-cases (lookup t.volume_id s.volumes)) [
    | inl missing ↦
        rw (complete_migration-missing t mig now s missing)
          (record mig { state = failed }, lookup-put_migration t.mig_id _ s, inr refl)
    | inr (v, e) ↦
        rw (complete_migration-there t mig now v s e)
          (done t mig now, lookup-put_migration t.mig_id _ (move_volume t v s), inl refl)
  ]

module _ (F : Ratios) where
  open F use {Ratio}

  pub run_migration :
      MigrationThread → List Time → Store Ratio → Store Ratio × Option MigrationThread
  run_migration t [] s = (s, some t)
  run_migration t (now ∷ times) s =
      proceed (step_migration F t now s) (λ t' s'. run_migration t' times s')

  -- a step that is not the last: the thread that goes on has one step less to take
  abbrev GoesOn : Phase → MigrationThread → Migration → Time → Store Ratio → Type 0
  GoesOn p t mig now s =
      (t' : MigrationThread) × (s' : Store Ratio) × (advance F p t mig now s ≡ (s', some t'))
      × (t'.mig_id ≡ t.mig_id)
      × IsLive t.mig_id s'
      × (suc (remaining t'.phase) ≡ remaining p)
      × InRange t'.phase

  advance-GoesOn :
      (p : Phase) (t : MigrationThread) (mig : Migration) (now : Time) (s : Store Ratio)
      → mig.cancelled ≡ false
      → InRange p
      → 0 < remaining p
      → GoesOn p t mig now s
  unfolding advance report_transfer
  advance-GoesOn begin t mig now s e r h = (
    _,
    _,
    refl,
    refl,
    put_migration-IsLive t.mig_id (record mig { state = transferring }) s e,
    refl,
    omega arith,
  )
  advance-GoesOn (transfer i) t mig now s e r h = elim (Bool-cases (ltb i 10)) [
    | inl more ↦ (
      _,
      _,
      refl,
      refl,
      put_migration-IsLive t.mig_id (report_transfer F t i mig now) s e,
      rw more (ground arith),
      rw more (ground arith),
    )
    | inr last ↦ (
      _,
      _,
      refl,
      refl,
      put_migration-IsLive t.mig_id (report_transfer F t i mig now) s e,
      rw last (ground arith),
      rw last tt,
    )
  ]
  advance-GoesOn wind_up t mig now s e r h = (
    _,
    _,
    refl,
    refl,
    put_migration-IsLive t.mig_id (record mig { state = finishing }) s e,
    refl,
    tt,
  )
  advance-GoesOn complete t mig now s e r h = absurd (omega arith)

  step_migration-live :
      (t : MigrationThread) (mig : Migration) (now : Time) (s : Store Ratio)
      → lookup t.mig_id s.migrations ≡ some mig
      → mig.cancelled ≡ false
      → step_migration F t now s ≡ advance F t.phase t mig now s
  unfolding step_migration
  step_migration-live t mig now s e live = ground arith

  advance_complete :
      (p : Phase) (t : MigrationThread) (mig : Migration) (now : Time) (s : Store Ratio)
      → InRange p
      → remaining p ≡ 0
      → advance F p t mig now s ≡ (complete_migration t mig now s, none)
  unfolding advance
  advance_complete begin t mig now s r h = absurd (omega arith)
  advance_complete (transfer i) t mig now s r h = absurd (omega arith)
  advance_complete wind_up t mig now s r h = absurd (omega arith)
  advance_complete complete t mig now s r h = refl

  run_migration_ends :
      (k : ℕ) (t : MigrationThread) (times : List Time) (s : Store Ratio)
      → remaining t.phase ≡ k
      → length times ≡ suc k
      → InRange t.phase
      → IsLive t.mig_id s
      → ((run_migration t times s).1 ≡ none) × HasEnded t.mig_id (run_migration t times s).0
  unfolding run_migration proceed
  run_migration_ends k t [] s h l r live = absurd (omega arith)
  run_migration_ends zero t (now ∷ times) s h l r live =
      let (mig, e, c) = live in
      rw (step_migration-live t mig now s e c, advance_complete t.phase t mig now s r h)
        (refl, complete_migration-HasEnded t mig now s)
  run_migration_ends (suc k) t (now ∷ times) s h l r live =
      let (mig, e, c) = live in
      let (t', s', step, same, live', fewer, r') =
        advance-GoesOn t.phase t mig now s c r (omega arith) in
      rw (step_migration-live t mig now s e c, step)
        (subst
          (λ id. ((run_migration t' times s').1 ≡ none) × HasEnded id (run_migration t' times s').0)
          same (run_migration_ends k t' times s' (omega arith) (omega arith) r' (rw same live')))

  start_migration-starts :
      (id dest : String) (start : Time) (s : Store Ratio) {mig : Migration} {t : MigrationThread}
      → (start_migration F id dest start s).0 ≡ ok (mig, t)
      → (t.phase ≡ begin) × IsLive t.mig_id (start_migration F id dest start s).1
  unfolding start_migration
  start_migration-starts id dest start s {mig} {t} h = elim (Option-cases (lookup id s.volumes)) [
    | inl missing ↦ absurd (ground arith)
    | inr (v, e) ↦ elim (Option-cases (lookup dest s.backends)) [
      | inl missing ↦ absurd (ground arith)
      | inr (b, eb) ↦ (
        ground arith,
        (mig, ground (arith, lookup-insert_self t.mig_id mig s.migrations), ground arith),
      )
    ]
  ]

  -- A migration that is alone at the store ends: the thread that `StartMigration` starts has ended
  -- after thirteen steps, whatever the times, and the migration is then completed or failed.
  pub start_migration_ends :
      (id dest : String) (start : Time) (times : List Time) (s : Store Ratio) {mig : Migration}
      {t : MigrationThread}
      → (start_migration F id dest start s).0 ≡ ok (mig, t)
      → length times ≡ 13
      → ((run_migration t times (start_migration F id dest start s).1).1 ≡ none)
        × HasEnded t.mig_id (run_migration t times (start_migration F id dest start s).1).0
  start_migration_ends id dest start times s {mig} {t} h l =
      let (p, live) = start_migration-starts id dest start s h in
      run_migration_ends 12 t times (start_migration F id dest start s).1 (rw p refl) l (rw p tt)
        live
