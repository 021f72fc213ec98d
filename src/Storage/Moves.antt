-- ===== src/Storage/Moves.antt =====
-- The end of a migration (`runMigration` in storage-sim/internal/state/store.go) and the accounts.
use mathlib.Core.Path.{subst₃}
use cirrus_sim.Base.{
  ◌≡◌, some, is_some, String, true, string_eq, arith, str_iff, Option-cases, inl, inr, Bool-cases,
  false, ap, refl,
}
use cirrus_sim.Storage.Migration.{
  MigrationThread, move_volume, Phase, advance, complete_migration, step_migration, put_migration,
  complete, transfer, begin, wind_up,
}
use cirrus_sim.Storage.Backends.{charge, refund, put_volume, put_backend}
use cirrus_sim.Storage.Types.{Volume, Store, Backend, Ratios, Migration, Time}
use cirrus_sim.Base.Int64.{add64, sub64}
use cirrus_sim.Base.Dict.{lookup, Dict, insert, lookup-insert, total-insert, insert-IsMap}
use cirrus_sim.Storage.Accounting.{IsBalanced, alloc_on, used_on}
use cirrus_sim.Storage.Consistent.{IsHomed, IsConsistent}
use cirrus_sim.Storage.Rewrites.{IsConsistent-of}

module _ {R : Type 0} where
  -- The volume is still as it was when the thread was started, and the destination is there.
  pub record IsCurrent (t : MigrationThread) (v : Volume) (s : Store R) : Type 0 where
    pub there : lookup t.volume_id s.volumes ≡ some v
    pub at_source : v.backend_id ≡ t.src_backend_id
    pub same_size : v.size_gb ≡ t.size_gb
    pub same_kind : v.thin_provisioned ≡ t.thin_provisioned
    pub dest_there : is_some (lookup t.dest_backend_id s.backends) ≡ true

  -- Capacity that is refunded at the source and charged at the destination follows the volume,
  -- also where the two are one backend.
  move-IsBalanced :
      (bs : Dict String (Backend R)) (vs : Dict String Volume) (vid dest : String) (v : Volume)
      (b d : Backend R)
      → IsBalanced bs vs
      → lookup vid vs ≡ some v
      → lookup v.backend_id bs ≡ some b
      → lookup dest (insert v.backend_id (refund v.thin_provisioned v.size_gb b) bs) ≡ some d
      → IsBalanced
          (insert dest
            (charge v.thin_provisioned v.size_gb d)
            (insert v.backend_id (refund v.thin_provisioned v.size_gb b) bs))
          (insert vid (record v { backend_id = dest }) vs)
  unfolding charge refund add64 sub64
  move-IsBalanced bs vs vid dest v b d h ev eb ed id c ec = ground (
    arith,
    lookup-insert dest id (charge v.thin_provisioned v.size_gb d)
        (insert v.backend_id (refund v.thin_provisioned v.size_gb b) bs),
    lookup-insert v.backend_id id (refund v.thin_provisioned v.size_gb b) bs,
    lookup-insert v.backend_id dest (refund v.thin_provisioned v.size_gb b) bs,
    str_iff dest id,
    str_iff v.backend_id id,
    str_iff v.backend_id dest,
    h id c,
    h v.backend_id b,
    h dest d,
    total-insert (alloc_on id) vid (record v { backend_id = dest }) vs,
    total-insert (used_on id) vid (record v { backend_id = dest }) vs,
  )

  -- The two accounts, and the volume, after the move.
  abbrev pub moved : MigrationThread → Volume → Backend R → Backend R → Store R → Store R
  moved t v b d s =
      put_volume t.volume_id (record v { backend_id = t.dest_backend_id })
        (put_backend t.dest_backend_id (charge t.thin_provisioned t.size_gb d)
          (put_backend t.src_backend_id (refund t.thin_provisioned t.size_gb b) s))

  IsHomed-move :
      (bs bs' : Dict String (Backend R)) (vs : Dict String Volume) (vid dest : String) (v : Volume)
      → IsHomed bs vs
      → ((id : String) → is_some (lookup id bs) ≡ true → is_some (lookup id bs') ≡ true)
      → is_some (lookup dest bs') ≡ true
      → IsHomed bs' (insert vid (record v { backend_id = dest }) vs)
  IsHomed-move bs bs' vs vid dest v h keeps there k x ex =
      ground
        (arith, lookup-insert vid k (record v { backend_id = dest }) vs, h k x, keeps x.backend_id)

  is_some-insert :
      (id k : String) (b : Backend R) (bs : Dict String (Backend R))
      → is_some (lookup k bs) ≡ true
      → is_some (lookup k (insert id b bs)) ≡ true
  is_some-insert id k b bs h = ground (arith, lookup-insert id k b bs)

  moved-IsConsistent :
      (t : MigrationThread) (v : Volume) (b d : Backend R) (s : Store R)
      → IsConsistent s
      → IsCurrent t v s
      → lookup t.src_backend_id s.backends ≡ some b
      → lookup t.dest_backend_id
          (insert t.src_backend_id (refund t.thin_provisioned t.size_gb b) s.backends)
        ≡ some d
      → IsConsistent (moved t v b d s)
  unfolding put_volume put_backend
  moved-IsConsistent t v b d s c k eb ed = record {
    backend_map =
        insert-IsMap t.dest_backend_id _ _ (insert-IsMap t.src_backend_id _ _ c.backend_map);
    volume_map = insert-IsMap t.volume_id _ s.volumes c.volume_map;
    balanced =
        subst₃
          (λ src n thin.
            IsBalanced
              (insert t.dest_backend_id (charge thin n d) (insert src (refund thin n b) s.backends))
              (insert t.volume_id (record v { backend_id = t.dest_backend_id }) s.volumes))
          k.at_source k.same_size k.same_kind
          (move-IsBalanced s.backends s.volumes t.volume_id t.dest_backend_id v b d c.balanced
            k.there (rw k.at_source eb) (rw (k.at_source, k.same_size, k.same_kind) ed));
    homed =
        IsHomed-move s.backends _ s.volumes t.volume_id t.dest_backend_id v c.homed
          (λ id h. is_some-insert _ id _ _ (is_some-insert _ id _ _ h))
          (is_some-insert _ t.dest_backend_id _ _
            (is_some-insert _ t.dest_backend_id _ _ k.dest_there));
  }

  pub move_volume-moved :
      (t : MigrationThread) (v : Volume) (b d : Backend R) (s : Store R)
      → lookup t.src_backend_id s.backends ≡ some b
      → lookup t.dest_backend_id
          (insert t.src_backend_id (refund t.thin_provisioned t.size_gb b) s.backends)
        ≡ some d
      → move_volume t v s ≡ moved t v b d s
  unfolding move_volume put_backend
  move_volume-moved t v b d s eb ed = ground arith

  move_volume-IsConsistent :
      (t : MigrationThread) (v : Volume) (s : Store R)
      → IsConsistent s
      → IsCurrent t v s
      → IsConsistent (move_volume t v s)
  move_volume-IsConsistent t v s c k = elim (Option-cases (lookup t.src_backend_id s.backends)) [
    | inl missing ↦ absurd (ground (arith, c.homed t.volume_id v))
    | inr (b, eb) ↦
        let bs = insert t.src_backend_id (refund t.thin_provisioned t.size_gb b) s.backends in
        elim (Option-cases (lookup t.dest_backend_id bs)) [
          | inl missing ↦ absurd (
              ground (
                arith,
                is_some-insert t.src_backend_id t.dest_backend_id
                    (refund t.thin_provisioned t.size_gb b) s.backends k.dest_there,
              ))
          | inr (d, ed) ↦
              rw (move_volume-moved t v b d s eb ed) (moved-IsConsistent t v b d s c k eb ed)
        ]
  ]

  -- A thread that is not about to complete touches neither backends nor volumes, and one whose
  -- migration is gone or cancelled completes nothing.
  abbrev pub IsReady : Phase → MigrationThread → Store R → Type 0
  IsReady complete t s =
      (mig : Migration) (v : Volume)
      → lookup t.mig_id s.migrations ≡ some mig
      → mig.cancelled ≡ false
      → lookup t.volume_id s.volumes ≡ some v
      → IsCurrent t v s
  IsReady _ t s = Unit {0}

  -- what is left of it where the migration is there and not cancelled
  abbrev IsFit : Phase → MigrationThread → Store R → Type 0
  IsFit complete t s = (v : Volume) → lookup t.volume_id s.volumes ≡ some v → IsCurrent t v s
  IsFit _ t s = Unit {0}

  IsFit-of :
      (p : Phase) (t : MigrationThread) (mig : Migration) (s : Store R)
      → IsReady p t s
      → lookup t.mig_id s.migrations ≡ some mig
      → mig.cancelled ≡ false
      → IsFit p t s
  IsFit-of begin t mig s r em live = tt
  IsFit-of (transfer i) t mig s r em live = tt
  IsFit-of wind_up t mig s r em live = tt
  IsFit-of complete t mig s r em live = λ v ev. r mig v em live ev

module _ (F : Ratios) where
  open F use {Ratio}

  complete_migration-IsConsistent :
      (t : MigrationThread) (mig : Migration) (now : Time) (s : Store Ratio)
      → IsConsistent s
      → IsFit complete t s
      → IsConsistent (complete_migration t mig now s)
  unfolding complete_migration put_migration
  complete_migration-IsConsistent t mig now s c r =
      elim (Option-cases (lookup t.volume_id s.volumes)) [
        | inl missing ↦ IsConsistent-of s _ (ground arith) (ground arith) c
        | inr (v, ev) ↦
            IsConsistent-of (move_volume t v s) _ (ground arith) (ground arith)
              (move_volume-IsConsistent t v s c (r v ev))
      ]

  advance-IsConsistent :
      (p : Phase) (t : MigrationThread) (mig : Migration) (now : Time) (s : Store Ratio)
      → IsConsistent s
      → IsFit p t s
      → IsConsistent (advance F p t mig now s).0
  unfolding advance
  advance-IsConsistent begin t mig now s c r = IsConsistent-of s _ refl refl c
  advance-IsConsistent (transfer i) t mig now s c r = IsConsistent-of s _ refl refl c
  advance-IsConsistent wind_up t mig now s c r = IsConsistent-of s _ refl refl c
  advance-IsConsistent complete t mig now s c r = complete_migration-IsConsistent t mig now s c r

  step_migration-live :
      (t : MigrationThread) (mig : Migration) (now : Time) (s : Store Ratio)
      → lookup t.mig_id s.migrations ≡ some mig
      → mig.cancelled ≡ false
      → step_migration F t now s ≡ advance F t.phase t mig now s
  unfolding step_migration
  step_migration-live t mig now s e live = ground arith

  -- Whatever a migration's goroutine does next to a consistent store, the store stays consistent, if at
  -- its last step, where the migration is there and not cancelled, the volume, where it still exists,
  -- is as it was at the start, and the destination is still there.
  pub step_migration-IsConsistent :
      (t : MigrationThread) (now : Time) (s : Store Ratio)
      → IsConsistent s
      → IsReady t.phase t s
      → IsConsistent (step_migration F t now s).0
  unfolding step_migration
  step_migration-IsConsistent t now s c r = elim (Option-cases (lookup t.mig_id s.migrations)) [
    | inl missing ↦ IsConsistent-of s _ (ground arith) (ground arith) c
    | inr (mig, em) ↦ elim (Bool-cases mig.cancelled) [
      | inl gone ↦ IsConsistent-of s _ (ground arith) (ground arith) c
      | inr live ↦
          IsConsistent-of (advance F t.phase t mig now s).0 _
            (ap (λ r. r.0.backends) (step_migration-live t mig now s em live))
            (ap (λ r. r.0.volumes) (step_migration-live t mig now s em live))
            (advance-IsConsistent t.phase t mig now s c (IsFit-of t.phase t mig s r em live))
    ]
  ]
