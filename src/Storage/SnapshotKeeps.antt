-- ===== src/Storage/SnapshotKeeps.antt =====
-- `CreateSnapshot`, `DeleteSnapshot` and `CloneFromSnapshot` of
-- storage-sim/internal/state/store.go, and the accounts.
use cirrus_sim.Storage.Effects.{Fits}
use cirrus_sim.Base.{
  refl, String, ◌++◌, remove_first, Option-cases, string_eq, ◌∷◌, inl, [], arith, inr, Bool-cases,
  none, ◌==◌, ltb, some, ◌||◌, length, is_some, true, ◌≡◌, ◌≢◌, str_iff,
}
use cirrus_sim.Storage.Snapshots.{
  create_snapshot, delete_snapshot, put_snapshot, clone_from_snapshot,
}
use cirrus_sim.Storage.Types.{
  Volume, Store, Time, Ratios, Snapshot, Backend, volume_available, Error, backend_active,
}
use cirrus_sim.Base.Dict.{Dict, lookup}
use cirrus_sim.Storage.Rewrites.{Rewrites, Rewrites-IsConsistent, IsConsistent-of}
use cirrus_sim.Storage.Consistent.{IsConsistent, placed-IsConsistent}
use cirrus_sim.Base.Exec.{Result, err, ok}
use cirrus_sim.Storage.Backends.{put_volume, put_backend, charge}

with_snapshot : String → Volume → Volume
with_snapshot sid v = record v { snapshots = v.snapshots ++ sid ∷ [] }

without_snapshot : String → Volume → Volume
without_snapshot sid v = record v { snapshots = remove_first sid v.snapshots }

module _ {R : Type 0} where
  create_snapshot-Rewrites :
      (vid sid : String) (metadata : Dict String String) (now : Time) (s : Store R)
      → Rewrites vid s (create_snapshot vid sid metadata now s).1
  unfolding create_snapshot with_snapshot
  create_snapshot-Rewrites vid sid metadata now s = elim (Option-cases (lookup vid s.volumes)) [
    | inl missing ↦ inl (ground arith, ground arith)
    | inr (v, e) ↦ elim (Bool-cases (sid == "" || is_some (lookup sid s.snapshots))) [
      | inl used ↦ inl (ground arith, ground arith)
      | inr free ↦ inr (v, with_snapshot sid v, e, refl, refl, refl, ground arith, ground arith)
    ]
  ]

  -- the volume that a snapshot is of, where the snapshot is there
  parent_of : String → Store R → String
  parent_of sid s = elim (lookup sid s.snapshots) [ none ↦ "" | some snap ↦ snap.volume_id ]

  delete_snapshot-Rewrites :
      (sid : String) (s : Store R) → Rewrites (parent_of sid s) s (delete_snapshot sid s).1
  unfolding delete_snapshot without_snapshot parent_of
  delete_snapshot-Rewrites sid s = elim (Option-cases (lookup sid s.snapshots)) [
    | inl missing ↦ inl (ground arith, ground arith)
    | inr (snap, es) ↦ elim (Bool-cases (ltb 0 (length snap.child_clones))) [
      | inl used ↦ inl (ground arith, ground arith)
      | inr free ↦ elim (Option-cases (lookup snap.volume_id s.volumes)) [
        | inl missing ↦ inl (ground arith, ground arith)
        | inr (v, e) ↦ inr (
          v,
          without_snapshot sid v,
          rw (es, parent_of) e,
          refl,
          refl,
          refl,
          ground arith,
          ground arith,
        )
      ]
    ]
  ]

  pub create_snapshot-IsConsistent :
      (vid sid : String) (metadata : Dict String String) (now : Time) (s : Store R)
      → IsConsistent s
      → IsConsistent (create_snapshot vid sid metadata now s).1
  create_snapshot-IsConsistent vid sid metadata now s =
      Rewrites-IsConsistent vid s _ (create_snapshot-Rewrites vid sid metadata now s)

  pub delete_snapshot-IsConsistent :
      (sid : String) (s : Store R) → IsConsistent s → IsConsistent (delete_snapshot sid s).1
  delete_snapshot-IsConsistent sid s =
      Rewrites-IsConsistent (parent_of sid s) s _ (delete_snapshot-Rewrites sid s)

-- The volume that a clone of a snapshot is.
abbrev pub clone_volume : String → String → Volume → Snapshot → Dict String String → Time → Volume
clone_volume sid vid src snap metadata now = record {
  volume_id = vid;
  backend_id = src.backend_id;
  size_gb = snap.size_gb;
  consumed_gb = 0;
  thin_provisioned = true;
  state = volume_available;
  qos_policy = none;
  metadata = metadata;
  created_at = now;
  export_info = none;
  snapshots = [];
  parent_snapshot_id = sid;
}

module _ (F : Ratios) where
  open F use {Ratio}

  -- Why a snapshot can be cloned: its volume is there, and the backend of that volume has room.
  pub record Clonable (sid vid : String) (snap : Snapshot) (src : Volume) (b : Backend Ratio)
      (s : Store Ratio) : Type 0 where
    pub named : vid ≢ ""
    pub unused : lookup vid s.volumes ≡ none
    pub taken : lookup sid s.snapshots ≡ some snap
    pub source : lookup snap.volume_id s.volumes ≡ some src
    pub found : lookup src.backend_id s.backends ≡ some b
    pub active : b.state ≡ backend_active
    pub fits : Fits F true b snap.size_gb

  pub clone_from_snapshot-fails :
      (sid vid : String) (metadata : Dict String String) (now : Time) (s : Store Ratio) {e : Error}
      → (clone_from_snapshot F sid vid metadata now s).0 ≡ err e
      → (clone_from_snapshot F sid vid metadata now s).1 ≡ s
  unfolding clone_from_snapshot
  clone_from_snapshot-fails sid vid metadata now s h = ground arith

  pub clone_from_snapshot-Clonable :
      (sid vid : String) (metadata : Dict String String) (now : Time) (snap : Snapshot)
      (src : Volume) (b : Backend Ratio) (s : Store Ratio)
      → Clonable sid vid snap src b s
      → clone_from_snapshot F sid vid metadata now s ≡ (
        ok (clone_volume sid vid src snap metadata now),
        put_snapshot sid
            (record snap { child_clones = snap.child_clones ++ vid ∷ [] })
            (put_volume vid
              (clone_volume sid vid src snap metadata now)
              (put_backend src.backend_id (charge true snap.size_gb b) s)),
      )
  unfolding clone_from_snapshot
  clone_from_snapshot-Clonable sid vid metadata now snap src b s c =
      ground (arith, str_iff vid "", str_iff b.state backend_active)

  pub clone_from_snapshot-inv :
      (sid vid : String) (metadata : Dict String String) (now : Time) (s : Store Ratio) {w : Volume}
      → (clone_from_snapshot F sid vid metadata now s).0 ≡ ok w
      → (snap : Snapshot) × (src : Volume) × (b : Backend Ratio) × Clonable sid vid snap src b s
  unfolding clone_from_snapshot
  clone_from_snapshot-inv sid vid metadata now s h = elim (Option-cases (lookup sid s.snapshots)) [
    | inl missing ↦ absurd (ground arith)
    | inr (snap, es) ↦ elim (Option-cases (lookup snap.volume_id s.volumes)) [
      | inl missing ↦ absurd (ground arith)
      | inr (src, ev) ↦ elim (Option-cases (lookup src.backend_id s.backends)) [
        | inl missing ↦ absurd (ground arith)
        | inr (b, eb) ↦
            (snap, src, b, ground (arith, str_iff vid "", str_iff b.state backend_active))
      ]
    ]
  ]

  pub clone_from_snapshot-IsConsistent :
      (sid vid : String) (metadata : Dict String String) (now : Time) (s : Store Ratio)
      → IsConsistent s
      → IsConsistent (clone_from_snapshot F sid vid metadata now s).1
  unfolding put_snapshot
  clone_from_snapshot-IsConsistent sid vid metadata now s c =
      go (clone_from_snapshot F sid vid metadata now s).0 refl
    where
      go :
          (r : Result Error Volume)
          → (clone_from_snapshot F sid vid metadata now s).0 ≡ r
          → IsConsistent (clone_from_snapshot F sid vid metadata now s).1
      go (err e) h = rw (clone_from_snapshot-fails sid vid metadata now s h) c
      go (ok w) h =
          let (snap, src, b, k) = clone_from_snapshot-inv sid vid metadata now s h in
          rw (clone_from_snapshot-Clonable sid vid metadata now snap src b s k) (
            IsConsistent-of
              (put_volume vid (clone_volume sid vid src snap metadata now)
                (put_backend src.backend_id (charge true snap.size_gb b) s))
              _ refl refl
              (placed-IsConsistent s none vid src.backend_id
                (clone_volume sid vid src snap metadata now) b snap.size_gb c k.found k.unused
                (refl, refl) refl))
