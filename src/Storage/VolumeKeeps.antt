-- ===== src/Storage/VolumeKeeps.antt =====
-- `DeleteVolume`, `ExportVolume` and `UnexportVolume` of storage-sim/internal/state/store.go, and the
-- accounts.
use cirrus_sim.Base.{
  ◌≡◌, refl, String, none, some, ◌≢◌, Option-cases, arith, inl, [], string_eq, inr, str_iff,
  Bool-cases, ◌==◌,
}
use cirrus_sim.Storage.Volumes.{unexport_volume, export_volume, delete_volume}
use cirrus_sim.Storage.Types.{Volume, volume_available, Store, volume_in_use, Error}
use cirrus_sim.Storage.Rewrites.{Rewrites, Rewrites-IsConsistent}
use cirrus_sim.Storage.Consistent.{IsConsistent, removed, removed-IsConsistent}
use cirrus_sim.Base.Dict.{lookup}
use cirrus_sim.Base.Exec.{ok, Result, err}

pub exported : String → String → Volume → Volume
exported host protocol v = record v {
  state = volume_in_use;
  export_info = some (record { host_id = host; protocol = protocol });
}

pub unexported : Volume → Volume
unexported v = record v { state = volume_available; export_info = none }

module _ {R : Type 0} where
  pub delete_volume-fails :
      (id : String) (s : Store R) {e : Error}
      → (delete_volume id s).0 ≡ err e
      → (delete_volume id s).1 ≡ s
  unfolding delete_volume
  delete_volume-fails id s h = ground arith

  -- Why a volume can be deleted.
  pub record Deletable (id : String) (v : Volume) (s : Store R) : Type 0 where
    pub there : lookup id s.volumes ≡ some v
    pub idle : v.state ≢ volume_in_use
    pub bare : v.snapshots ≡ []

  pub delete_volume-Deletable :
      (id : String) (v : Volume) (s : Store R)
      → Deletable id v s
      → delete_volume id s ≡ (ok tt, removed id v s)
  unfolding delete_volume
  delete_volume-Deletable id v s d = ground (arith, str_iff v.state volume_in_use)

  pub delete_volume-inv :
      (id : String) (s : Store R) → (delete_volume id s).0 ≡ ok tt → (v : Volume) × Deletable id v s
  unfolding delete_volume
  delete_volume-inv id s h = elim (Option-cases (lookup id s.volumes)) [
    | inl missing ↦ absurd (ground arith)
    | inr (v, e) ↦ (v, ground (arith, str_iff v.state volume_in_use))
  ]

  pub delete_volume-IsConsistent :
      (id : String) (s : Store R) → IsConsistent s → IsConsistent (delete_volume id s).1
  delete_volume-IsConsistent id s c = go (delete_volume id s).0 refl
    where
      go :
          (r : Result Error (Unit {0}))
          → (delete_volume id s).0 ≡ r
          → IsConsistent (delete_volume id s).1
      go (err e) h = rw (delete_volume-fails id s h) c
      go (ok tt) h =
          let (v, k) = delete_volume-inv id s h in
          rw (delete_volume-Deletable id v s k) (removed-IsConsistent s id v c k.there)

  export_volume-Rewrites :
      (id host protocol : String) (s : Store R) → Rewrites id s (export_volume id host protocol s).1
  unfolding export_volume exported
  export_volume-Rewrites id host protocol s = elim (Option-cases (lookup id s.volumes)) [
    | inl missing ↦ inl (ground arith, ground arith)
    | inr (v, e) ↦ elim (Bool-cases (v.state == volume_in_use)) [
      | inl used ↦ inl (ground arith, ground arith)
      | inr free ↦
          inr (v, exported host protocol v, e, refl, refl, refl, ground arith, ground arith)
    ]
  ]

  unexport_volume-Rewrites : (id : String) (s : Store R) → Rewrites id s (unexport_volume id s).1
  unfolding unexport_volume unexported
  unexport_volume-Rewrites id s = elim (Option-cases (lookup id s.volumes)) [
    | inl missing ↦ inl (ground arith, ground arith)
    | inr (v, e) ↦ elim (Bool-cases (v.state == volume_in_use)) [
      | inl used ↦ inr (v, unexported v, e, refl, refl, refl, ground arith, ground arith)
      | inr free ↦ inl (ground arith, ground arith)
    ]
  ]

  pub export_volume-IsConsistent :
      (id host protocol : String) (s : Store R)
      → IsConsistent s
      → IsConsistent (export_volume id host protocol s).1
  export_volume-IsConsistent id host protocol s =
      Rewrites-IsConsistent id s _ (export_volume-Rewrites id host protocol s)

  pub unexport_volume-IsConsistent :
      (id : String) (s : Store R) → IsConsistent s → IsConsistent (unexport_volume id s).1
  unexport_volume-IsConsistent id s = Rewrites-IsConsistent id s _ (unexport_volume-Rewrites id s)
