-- ===== src/Storage/Decides.antt =====
-- The guards, the answer and the effect of the volume operations of
-- storage-sim/internal/state/store.go, on every branch.
use cirrus_sim.Base.{ap, arith, ◌∙◌, ◌≡◌, string_eq, String, ◌++◌, ◌∷◌, [], true}
use cirrus_sim.Storage.Types.{Ratios, Store, Volume, Time, Backend, Snapshot}
use cirrus_sim.Base.Dict.{Dict, insert}
use cirrus_sim.Base.Exec.{ok}
use cirrus_sim.Base.Int64.{Int64, sub64}
use cirrus_sim.Base.Decides.{Decides, decides}
use cirrus_sim.Storage.VolumeKeeps.{
  Deletable, delete_volume-fails, delete_volume-inv, delete_volume-Deletable,
}
use cirrus_sim.Storage.VolumeLaws.{
  Extendable, Creatable, fresh, create_volume-fails, create_volume-inv, extend_volume-fails,
  create_volume-Creatable, extend_volume-inv, extend_volume-Extendable,
}
use cirrus_sim.Storage.Consistent.{removed}
use cirrus_sim.Storage.SnapshotKeeps.{
  Clonable, clone_volume, clone_from_snapshot-fails, clone_from_snapshot-inv,
  clone_from_snapshot-Clonable,
}
use cirrus_sim.Storage.Volumes.{delete_volume, create_volume, extend_volume}
use cirrus_sim.Storage.Backends.{put_volume, put_backend, charge, refund, update_backend}
use cirrus_sim.Storage.Effects.{charged, stored, deleted}
use cirrus_sim.Storage.Snapshots.{put_snapshot, clone_from_snapshot}

module _ (F : Ratios) where
  open F use {Ratio}

  -- `CreateVolume` goes through exactly when the id is not empty and not taken, the backend is there
  -- and active, and the size fits. It then charges the backend and stores the volume, available, with
  -- nothing consumed. Otherwise it returns an error and changes nothing.
  pub create_volume-Decides :
      (v : Volume) (now : Time) (s : Store Ratio)
      → Decides
          (λ (b : Backend Ratio). Creatable F v b s)
          (λ b. fresh v now)
          (λ b.
            stored v.volume_id
              (fresh v now)
              v.backend_id
              (charged v.thin_provisioned v.size_gb b)
              s)
          (create_volume F v now s)
          s
  unfolding charge put_volume put_backend
  create_volume-Decides v now s =
      decides _ _ _ _ s (λ e h. create_volume-fails F v now s h)
        (λ a h. create_volume-inv F v now s h) (λ b k. create_volume-Creatable F v now b s k)

  -- `ExtendVolume` goes through exactly when the volume is there, the new size is larger as a signed
  -- number, the volume's backend is there and the difference fits. It then charges the difference and
  -- stores the new size. Otherwise it returns an error and changes nothing.
  pub extend_volume-Decides :
      (id : String) (n : Int64) (s : Store Ratio)
      → Decides
          (λ (c : Volume × Backend Ratio). Extendable F id n c.0 c.1 s)
          (λ c. record c.0 { size_gb = n })
          (λ c.
            stored id
              (record c.0 { size_gb = n })
              c.0.backend_id
              (charged c.0.thin_provisioned (sub64 n c.0.size_gb) c.1)
              s)
          (extend_volume F id n s)
          s
  unfolding charge put_volume put_backend
  extend_volume-Decides id n s =
      decides _ _ _ _ s (λ e h. extend_volume-fails F id n s h)
        (λ a h. let (v, b, k) = extend_volume-inv F id n s h in ((v, b), k))
        (λ c k. extend_volume-Extendable F id n c.0 c.1 s k)

  -- `CloneFromSnapshot` goes through exactly when the new id is not empty and not taken, the snapshot,
  -- its volume and that volume's backend are there, the backend is active, and the snapshot's size
  -- fits as a thin volume. It then charges the backend, stores the clone with the snapshot as its
  -- parent, and lists the clone with the snapshot. Otherwise it returns an error and changes nothing.
  pub clone_from_snapshot-Decides :
      (sid vid : String) (metadata : Dict String String) (now : Time) (s : Store Ratio)
      → Decides
          (λ (c : Snapshot × Volume × Backend Ratio). Clonable F sid vid c.0 c.1 c.2 s)
          (λ c. clone_volume sid vid c.1 c.0 metadata now)
          (λ c.
            record (stored vid
              (clone_volume sid vid c.1 c.0 metadata now)
              c.1.backend_id
              (charged true c.0.size_gb c.2)
              s) {
                snapshots =
                    insert sid
                      (record c.0 { child_clones = c.0.child_clones ++ vid ∷ [] })
                      s.snapshots;
              })
          (clone_from_snapshot F sid vid metadata now s)
          s
  unfolding charge put_volume put_backend put_snapshot
  clone_from_snapshot-Decides sid vid metadata now s =
      decides _ _ _ _ s (λ e h. clone_from_snapshot-fails F sid vid metadata now s h)
        (λ a h.
          let (snap, src, b, k) = clone_from_snapshot-inv F sid vid metadata now s h in
          ((snap, src, b), k))
        (λ c k. clone_from_snapshot-Clonable F sid vid metadata now c.0 c.1 c.2 s k)

module _ {R : Type 0} where
  removed-deleted : (id : String) (v : Volume) (s : Store R) → removed id v s ≡ deleted id v s
  unfolding update_backend refund
  removed-deleted id v s = ground arith

  -- `DeleteVolume` goes through exactly when the volume is there, is not exported and has no
  -- snapshots. It then gives the capacity back to the backend, where that is there, and removes the
  -- volume. Otherwise it returns an error and changes nothing.
  pub delete_volume-Decides :
      (id : String) (s : Store R)
      → Decides
          (λ (v : Volume). Deletable id v s)
          (λ v. tt)
          (λ v. deleted id v s)
          (delete_volume id s)
          s
  delete_volume-Decides id s =
      decides _ _ _ _ s (λ e h. delete_volume-fails id s h) (λ a h. delete_volume-inv id s h)
        (λ v k. delete_volume-Deletable id v s k ∙ ap (λ t. (ok tt, t)) (removed-deleted id v s))
