-- ===== src/Tests/Volumes.antt =====
-- The storage simulator on concrete data.
use cirrus_sim.Tests.{percent}
use cirrus_sim.Base.{◌≡◌, str_iff, arith, ◌++◌, string_eq}
use cirrus_sim.Storage.Volumes.{create_volume, extend_volume, delete_volume}
use cirrus_sim.Storage.Snapshots.{create_snapshot, delete_snapshot, clone_from_snapshot}
use cirrus_sim.Base.Dict.{lookup, insert}
use cirrus_sim.Storage.Types.{
  Store, Backend, Volume, Snapshot, snapshot_has_clones, insufficient_capacity,
}
use cirrus_sim.Storage.Backends.{new_store}
use cirrus_sim.Storage.Effects.{charged, stored, deleted}
use cirrus_sim.Storage.Decides.{
  create_volume-Decides, extend_volume-Decides, delete_volume-Decides, clone_from_snapshot-Decides,
}
use cirrus_sim.Base.{[], ℕ, true, none, ◌∷◌, arith, refl, ◌++◌}
use cirrus_sim.Base.Decides.{Decides}
use cirrus_sim.Storage.VolumeLaws.{fresh, Creatable, Extendable}
use cirrus_sim.Storage.SnapshotKeeps.{Clonable, clone_volume}
use cirrus_sim.Storage.VolumeKeeps.{Deletable}
use cirrus_sim.Base.Int64.{sub64, slt, add64}
use cirrus_sim.Base.Exec.{ok, err}
use cirrus_sim.Storage.MigrationLaws.{delete_snapshot-after-clone}

abbrev pub fast : Backend ℕ
fast = record {
  backend_id = "fast";
  total_capacity_gb = 100;
  used_capacity_gb = 0;
  allocated_capacity_gb = 0;
  total_iops = 1000;
  used_iops_estimate = 0;
  capabilities = [];
  state = "active";
  overprovision_ratio = 150;
}

abbrev pub slow : Backend ℕ
slow = record fast { backend_id = "slow"; total_capacity_gb = 200; overprovision_ratio = 100 }

abbrev pub request : Volume
request = record {
  volume_id = "vol-1";
  backend_id = "fast";
  size_gb = 40;
  consumed_gb = 0;
  thin_provisioned = true;
  state = "";
  qos_policy = none;
  metadata = [];
  created_at = 0;
  export_info = none;
  snapshots = [];
  parent_snapshot_id = "";
}

-- The store with both backends and the volume.
abbrev pub store : Store ℕ
store = record new_store {
  backends = ("fast", record fast { allocated_capacity_gb = 40 }) ∷ ("slow", slow) ∷ [];
  volumes = ("vol-1", fresh request 6) ∷ [];
}

pub create-store :
    create_volume percent request 6
      (record new_store { backends = ("fast", fast) ∷ ("slow", slow) ∷ [] })
    ≡ (ok (fresh request 6), store)
unfolding create_volume lookup slt add64 insert
create-store = refl

create-full :
    create_volume percent (record request { volume_id = "vol-2"; size_gb = 111 }) 6 store
    ≡ (err insufficient_capacity, store)
unfolding create_volume lookup slt add64
create-full = refl

create_volume-Decides_example :
    let v = record request { volume_id = "vol-2" } in
    Decides
      (λ (b : Backend ℕ). Creatable percent v b store)
      (λ b. fresh v 7)
      (λ b. stored "vol-2" (fresh v 7) "fast" (charged true 40 b) store)
      (create_volume percent v 7 store)
      store
create_volume-Decides_example =
    create_volume-Decides percent (record request { volume_id = "vol-2" }) 7 store

extend_volume-Decides_example :
    Decides
      (λ (c : Volume × Backend ℕ). Extendable percent "vol-1" 60 c.0 c.1 store)
      (λ c. record c.0 { size_gb = 60 })
      (λ c.
        stored "vol-1"
          (record c.0 { size_gb = 60 })
          c.0.backend_id
          (charged c.0.thin_provisioned (sub64 60 c.0.size_gb) c.1)
          store)
      (extend_volume percent "vol-1" 60 store)
      store
extend_volume-Decides_example = extend_volume-Decides percent "vol-1" 60 store

delete_volume-Decides_example :
    Decides
      (λ (v : Volume). Deletable "vol-1" v store)
      (λ v. tt)
      (λ v. deleted "vol-1" v store)
      (delete_volume "vol-1" store)
      store
delete_volume-Decides_example = delete_volume-Decides "vol-1" store

-- A snapshot of the volume, and a clone of it.
abbrev pub snap : Snapshot
snap = record {
  snapshot_id = "snap-1";
  volume_id = "vol-1";
  size_gb = 40;
  consumed_gb = 0;
  state = "available";
  child_clones = [];
  metadata = [];
  created_at = 8;
}

abbrev pub source : Volume
source = record (fresh request 6) { snapshots = "snap-1" ∷ [] }

abbrev pub with_snap : Store ℕ
with_snap = record store { volumes = ("vol-1", source) ∷ []; snapshots = ("snap-1", snap) ∷ [] }

create_snapshot-store : create_snapshot "vol-1" "snap-1" [] 8 store ≡ (ok snap, with_snap)
unfolding create_snapshot lookup insert
create_snapshot-store = refl

clone_from_snapshot-Decides_example :
    Decides
      (λ (c : Snapshot × Volume × Backend ℕ).
        Clonable percent "snap-1" "vol-2" c.0 c.1 c.2 with_snap)
      (λ c. clone_volume "snap-1" "vol-2" c.1 c.0 [] 9)
      (λ c.
        record (stored "vol-2"
          (clone_volume "snap-1" "vol-2" c.1 c.0 [] 9)
          c.1.backend_id
          (charged true c.0.size_gb c.2)
          with_snap) {
            snapshots =
                insert "snap-1"
                  (record c.0 { child_clones = c.0.child_clones ++ "vol-2" ∷ [] })
                  with_snap.snapshots;
          })
      (clone_from_snapshot percent "snap-1" "vol-2" [] 9 with_snap)
      with_snap
clone_from_snapshot-Decides_example =
    clone_from_snapshot-Decides percent "snap-1" "vol-2" [] 9 with_snap

fast-Clonable :
    Clonable percent "snap-1" "vol-2" snap source
      (record fast { allocated_capacity_gb = 40 })
      with_snap
unfolding lookup slt add64
fast-Clonable = record {
  named = ground (arith, str_iff "vol-2" "");
  unused = refl;
  taken = refl;
  source = refl;
  found = refl;
  active = refl;
  fits = refl;
}

delete_snapshot-after-clone_example :
    let t =
      (delete_volume "vol-2" (clone_from_snapshot percent "snap-1" "vol-2" [] 9 with_snap).1).1 in
    delete_snapshot "snap-1" t ≡ (err snapshot_has_clones, t)
delete_snapshot-after-clone_example =
    delete_snapshot-after-clone percent "snap-1" "vol-2" [] 9 snap source
      (record fast { allocated_capacity_gb = 40 }) with_snap fast-Clonable
