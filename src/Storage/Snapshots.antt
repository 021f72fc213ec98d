-- ===== src/Storage/Snapshots.antt =====
-- storage-sim/internal/state/store.go: the operations on snapshots, and clones of snapshots.
use cirrus_sim.Base.{
  String, true, not, none, some, List, [], ◌∷◌, ◌++◌, ◌==◌, string_eq, length, ltb, remove_first,
  is_some,
}
use cirrus_sim.Base.Dict.{Dict, lookup, insert, erase}
use cirrus_sim.Base.Exec.{◌>>=◌, ◌>>◌, pure, gets, or_raise, raise_if, modify}
use cirrus_sim.Storage.Types.{
  Ratios, Volume, Snapshot, Store, Action, Time, backend_active, volume_available, empty_volume_id,
  volume_exists, backend_not_active, insufficient_capacity, empty_snapshot_id, snapshot_exists,
  snapshot_not_found, snapshot_has_clones,
}
use cirrus_sim.Storage.Backends.{get_backend, put_backend, put_volume, charge, exceeds}
use cirrus_sim.Storage.Volumes.{get_volume}

-- `for _, sid := range v.Snapshots { if snap, ok := s.snapshots[sid]; ok { … } }`
unfoldable pub found_snapshots : List String → Dict String Snapshot → List Snapshot
found_snapshots [] d = []
found_snapshots (sid ∷ sids) d =
    let rest = found_snapshots sids d in
    elim (lookup sid d) [ none ↦ rest | some snap ↦ snap ∷ rest ]

module _ {R : Type 0} where
  unfoldable pub put_snapshot : String → Snapshot → Store R → Store R
  put_snapshot id snap s = record s { snapshots = insert id snap s.snapshots }

  unfoldable pub get_snapshot : String → Action R Snapshot
  get_snapshot id = do found ← gets (λ s. lookup id s.snapshots); or_raise found snapshot_not_found

  unfoldable pub create_snapshot : String → String → Dict String String → Time → Action R Snapshot
  unfolding get_volume put_volume put_snapshot
  create_snapshot volume_id snapshot_id metadata now = do
    raise_if (snapshot_id == "") empty_snapshot_id
    found ← gets (λ s. lookup snapshot_id s.snapshots)
    raise_if (is_some found) snapshot_exists
    v ← get_volume volume_id
    let snap : Snapshot = record {
      snapshot_id = snapshot_id;
      volume_id = volume_id;
      size_gb = v.size_gb;
      consumed_gb = 0;
      state = "available";
      child_clones = [];
      metadata = metadata;
      created_at = now;
    }
    modify (put_snapshot snapshot_id snap)
    modify (put_volume volume_id (record v { snapshots = v.snapshots ++ snapshot_id ∷ [] }))
    pure snap

  unfoldable pub list_snapshots : String → Action R (List Snapshot)
  unfolding get_volume found_snapshots
  list_snapshots volume_id = do
    v ← get_volume volume_id
    gets (λ s. found_snapshots v.snapshots s.snapshots)

  -- `if v, ok := s.volumes[id]; ok { … }`
  unfoldable pub update_volume : String → (Volume → Volume) → Store R → Store R
  update_volume id f s = elim (lookup id s.volumes) [
    | none ↦ s
    | some v ↦ record s { volumes = insert id (f v) s.volumes }
  ]

  unfoldable pub delete_snapshot : String → Action R (Unit {0})
  unfolding get_snapshot update_volume
  delete_snapshot snapshot_id = do
    snap ← get_snapshot snapshot_id
    raise_if (ltb 0 (length snap.child_clones)) snapshot_has_clones
    modify (
        update_volume snap.volume_id
          (λ v. record v { snapshots = remove_first snapshot_id v.snapshots }))
    modify (λ s. record s { snapshots = erase snapshot_id s.snapshots })

module _ (F : Ratios) where
  open F use {Ratio}

  -- The capacity test is that of a thin volume, and so is the charge.
  unfoldable pub clone_from_snapshot :
      String → String → Dict String String → Time → Action Ratio Volume
  unfolding get_volume get_snapshot get_backend put_backend put_volume put_snapshot exceeds charge
  clone_from_snapshot snapshot_id volume_id metadata now = do
    raise_if (volume_id == "") empty_volume_id
    found ← gets (λ s. lookup volume_id s.volumes)
    raise_if (is_some found) volume_exists
    snap ← get_snapshot snapshot_id
    src_vol ← get_volume snap.volume_id
    b ← get_backend src_vol.backend_id
    raise_if (not (b.state == backend_active)) backend_not_active
    raise_if (exceeds F true b snap.size_gb) insufficient_capacity
    modify (put_backend src_vol.backend_id (charge true snap.size_gb b))
    let clone : Volume = record {
      volume_id = volume_id;
      backend_id = src_vol.backend_id;
      size_gb = snap.size_gb;
      consumed_gb = 0;
      thin_provisioned = true;
      state = volume_available;
      qos_policy = none;
      metadata = metadata;
      created_at = now;
      export_info = none;
      snapshots = [];
      parent_snapshot_id = snapshot_id;
    }
    modify (put_volume volume_id clone)
    modify (
        put_snapshot snapshot_id
          (record snap { child_clones = snap.child_clones ++ volume_id ∷ [] }))
    pure clone
