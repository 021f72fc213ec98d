-- ===== src/Storage/MigrationLaws.antt =====
-- Migrations and deletes in storage-sim/internal/state/store.go: CancelMigration and what the
-- goroutine does after it, the end of a migration whose volume has changed, and the delete of a
-- snapshot that was cloned.
use cirrus_sim.Base.{
  ◌≡◌, refl, String, arith, none, true, some, string_eq, ◌≢◌, [], Option-cases, inl, inr, List,
  ◌++◌, ◌∷◌, ◌∙◌, str_iff,
}
use cirrus_sim.Storage.Snapshots.{delete_snapshot, clone_from_snapshot, put_snapshot}
use cirrus_sim.Storage.Migration.{cancel_migration, step_migration, MigrationThread, move_volume}
use cirrus_sim.Storage.Volumes.{delete_volume}
use cirrus_sim.Storage.Types.{
  Ratios, Store, Time, Snapshot, Migration, failed, snapshot_has_clones, Volume, Backend,
}
use cirrus_sim.Base.Exec.{ok, err}
use cirrus_sim.Base.Dict.{lookup, lookup-insert_self, Dict, insert, lookup-insert_ne, total-insert}
use cirrus_sim.Storage.Backends.{charge, put_volume, put_backend, refund}
use cirrus_sim.Base.Int64.{add64}
use cirrus_sim.Storage.SnapshotKeeps.{Clonable, clone_from_snapshot-Clonable}
use cirrus_sim.Storage.Consistent.{IsConsistent}
use cirrus_sim.Storage.Accounting.{Agrees, alloc_on}
use cirrus_sim.Storage.Moves.{moved, move_volume-moved}

append-ne-nil : {A : Type 0} (xs : List A) (a : A) → (xs ++ a ∷ []) ≢ []
append-ne-nil [] a e = cc
append-ne-nil (x ∷ xs) a e = cc

module _ {R : Type 0} where
  cancel_migration-cancelled :
      (id : String) (s : Store R)
      → (cancel_migration id s).0 ≡ ok tt
      → (mig : Migration) × (lookup id (cancel_migration id s).1.migrations
          ≡ some (record mig { cancelled = true; state = failed }))
  unfolding cancel_migration
  cancel_migration-cancelled id s h = elim (Option-cases (lookup id s.migrations)) [
    | inl missing ↦ absurd (ground arith)
    | inr (mig, e) ↦ (
      mig,
      ground (
        arith,
        lookup-insert_self id (record mig { cancelled = true; state = failed }) s.migrations,
      ),
    )
  ]

  snapshots-delete_volume :
      (vid : String) (s : Store R) → (delete_volume vid s).1.snapshots ≡ s.snapshots
  unfolding delete_volume
  snapshots-delete_volume vid s = ground arith

  delete_snapshot-blocked :
      (sid : String) (s : Store R) (snap : Snapshot)
      → lookup sid s.snapshots ≡ some snap
      → snap.child_clones ≢ []
      → delete_snapshot sid s ≡ (err snapshot_has_clones, s)
  unfolding delete_snapshot
  delete_snapshot-blocked sid s snap e h = ground arith

  -- A delete of a volume leaves the snapshots alone, so a clone that is deleted stays listed with the
  -- snapshot that it was made from, and the snapshot can no longer be deleted: `DeleteSnapshot`
  -- returns "snapshot has active clones".
  pub delete_snapshot-after-delete_volume :
      (vid sid : String) (s : Store R) (snap : Snapshot)
      → lookup sid s.snapshots ≡ some snap
      → snap.child_clones ≢ []
      → delete_snapshot sid (delete_volume vid s).1
        ≡ (err snapshot_has_clones, (delete_volume vid s).1)
  delete_snapshot-after-delete_volume vid sid s snap e h =
      delete_snapshot-blocked sid (delete_volume vid s).1 snap
        (rw (snapshots-delete_volume vid s) e) h

module _ (F : Ratios) where
  open F use {Ratio}

  step_migration-cancelled :
      (t : MigrationThread) (mig : Migration) (now : Time) (s : Store Ratio)
      → lookup t.mig_id s.migrations ≡ some mig
      → mig.cancelled ≡ true
      → step_migration F t now s ≡ (s, none)
  unfolding step_migration
  step_migration-cancelled t mig now s e gone = ground arith

  -- After a cancellation that went through, the migration's goroutine ends at its next step, in
  -- whatever phase it is, and leaves the store alone.
  pub cancel_migration-stops :
      (id : String) (now : Time) (t : MigrationThread) (s : Store Ratio)
      → (cancel_migration id s).0 ≡ ok tt
      → t.mig_id ≡ id
      → step_migration F t now (cancel_migration id s).1 ≡ ((cancel_migration id s).1, none)
  cancel_migration-stops id now t s h e =
      let (mig, found) = cancel_migration-cancelled id s h in
      step_migration-cancelled t (record mig { cancelled = true; state = failed }) now
        (cancel_migration id s).1 (rw e found) refl

  -- After a clone from a snapshot whose guards hold, and a delete of the clone, `DeleteSnapshot` of
  -- that snapshot returns "snapshot has active clones" and changes nothing.
  pub delete_snapshot-after-clone :
      (sid vid : String) (metadata : Dict String String) (now : Time) (snap : Snapshot)
      (src : Volume) (b : Backend Ratio) (s : Store Ratio)
      → Clonable F sid vid snap src b s
      → let t = (delete_volume vid (clone_from_snapshot F sid vid metadata now s).1).1 in
        delete_snapshot sid t ≡ (err snapshot_has_clones, t)
  delete_snapshot-after-clone sid vid metadata now snap src b s k =
      let listed : Snapshot = record snap { child_clones = snap.child_clones ++ vid ∷ [] } in
      delete_snapshot-after-delete_volume vid sid (clone_from_snapshot F sid vid metadata now s).1
        listed
        (rw (clone_from_snapshot-Clonable F sid vid metadata now snap src b s k)
          (unfold put_snapshot in lookup-insert_self sid listed _))
        (append-ne-nil snap.child_clones vid)

module _ {R : Type 0} where
  -- In a consistent store, the end of a migration to another backend breaks the accounts if the
  -- volume's size is not the one that the migration was started with. The volume is on the source,
  -- and both backends are there.
  pub stale_migration-unbalanced :
      (t : MigrationThread) (v : Volume) (b d : Backend R) (s : Store R)
      → IsConsistent s
      → lookup t.volume_id s.volumes ≡ some v
      → v.backend_id ≡ t.src_backend_id
      → t.src_backend_id ≢ t.dest_backend_id
      → lookup t.src_backend_id s.backends ≡ some b
      → lookup t.dest_backend_id s.backends ≡ some d
      → ¬ (Agrees v.size_gb t.size_gb)
      → ¬ IsConsistent (move_volume t v s)
  unfolding charge add64 put_volume put_backend
  stale_migration-unbalanced t v b d s c ev at ne eb ed stale c' =
      let bs = insert t.src_backend_id (refund t.thin_provisioned t.size_gb b) s.backends in
      let ed' : lookup t.dest_backend_id bs ≡ some d =
        lookup-insert_ne t.src_backend_id t.dest_backend_id _ s.backends ne ∙ ed in
      let m : IsConsistent (moved t v b d s) = rw (move_volume-moved t v b d s eb ed') at c' in
      ground (
        arith,
        c.balanced t.dest_backend_id d ed,
        m.balanced t.dest_backend_id (charge t.thin_provisioned t.size_gb d)
            (lookup-insert_self t.dest_backend_id _ bs),
        total-insert (alloc_on t.dest_backend_id) t.volume_id
            (record v { backend_id = t.dest_backend_id }) s.volumes,
        str_iff t.dest_backend_id t.dest_backend_id,
        str_iff t.src_backend_id t.dest_backend_id,
      )
