-- ===== src/Storage/VolumeLaws.antt =====
-- `CreateVolume` and `ExtendVolume` of storage-sim/internal/state/store.go: their guards, their effect
-- and the accounts.
use cirrus_sim.Storage.Effects.{Fits}
use cirrus_sim.Base.{
  ◌≡◌, ◌≢◌, false, none, some, string_eq, arith, str_iff, String, Option-cases, sym, inl, refl, inr,
}
use cirrus_sim.Base.Dict.{lookup}
use cirrus_sim.Base.Exec.{ok, err, Result}
use cirrus_sim.Storage.Types.{
  Ratios, Backend, Volume, Store, Time, backend_active, volume_available, Error,
}
use cirrus_sim.Storage.Backends.{charge, put_backend, put_volume}
use cirrus_sim.Storage.Volumes.{create_volume, extend_volume}
use cirrus_sim.Storage.Consistent.{IsConsistent, placed-IsConsistent}
use cirrus_sim.Base.Int64.{Int64, sub64, sle, add-sub64}

-- The volume that `CreateVolume` stores.
abbrev pub fresh : Volume → Time → Volume
fresh v now = record v { state = volume_available; consumed_gb = 0; created_at = now }

module _ (F : Ratios) where
  open F use {Ratio}

  -- Why a volume can be created: what all the guards of `CreateVolume` ask for.
  pub record Creatable (v : Volume) (b : Backend Ratio) (s : Store Ratio) : Type 0 where
    pub named : v.volume_id ≢ ""
    pub unused : lookup v.volume_id s.volumes ≡ none
    pub found : lookup v.backend_id s.backends ≡ some b
    pub active : b.state ≡ backend_active
    pub fits : Fits F v.thin_provisioned b v.size_gb

  pub create_volume-Creatable :
      (v : Volume) (now : Time) (b : Backend Ratio) (s : Store Ratio)
      → Creatable v b s
      → create_volume F v now s ≡ (
        ok (fresh v now),
        put_volume v.volume_id
            (fresh v now)
            (put_backend v.backend_id (charge v.thin_provisioned v.size_gb b) s),
      )
  unfolding create_volume
  create_volume-Creatable v now b s c =
      ground (arith, str_iff v.volume_id "", str_iff b.state backend_active)

  pub create_volume-fails :
      (v : Volume) (now : Time) (s : Store Ratio) {e : Error}
      → (create_volume F v now s).0 ≡ err e
      → (create_volume F v now s).1 ≡ s
  unfolding create_volume
  create_volume-fails v now s h = ground arith

  pub create_volume-inv :
      (v : Volume) (now : Time) (s : Store Ratio) {w : Volume}
      → (create_volume F v now s).0 ≡ ok w
      → (b : Backend Ratio) × Creatable v b s
  unfolding create_volume
  create_volume-inv v now s h = elim (Option-cases (lookup v.backend_id s.backends)) [
    | inl missing ↦ absurd (ground arith)
    | inr (b, e) ↦ (b, ground (arith, str_iff v.volume_id "", str_iff b.state backend_active))
  ]

  pub create_volume-IsConsistent :
      (v : Volume) (now : Time) (s : Store Ratio)
      → IsConsistent s
      → IsConsistent (create_volume F v now s).1
  create_volume-IsConsistent v now s c = go (create_volume F v now s).0 refl
    where
      go :
          (r : Result Error Volume)
          → (create_volume F v now s).0 ≡ r
          → IsConsistent (create_volume F v now s).1
      go (err e) h = rw (create_volume-fails v now s h) c
      go (ok w) h =
          let (b, k) = create_volume-inv v now s h in
          rw (create_volume-Creatable v now b s k) (
            placed-IsConsistent s none v.volume_id v.backend_id (fresh v now) b v.size_gb c k.found
              k.unused (refl, refl) refl)

  pub extend_volume-fails :
      (id : String) (n : Int64) (s : Store Ratio) {e : Error}
      → (extend_volume F id n s).0 ≡ err e
      → (extend_volume F id n s).1 ≡ s
  unfolding extend_volume
  extend_volume-fails id n s h = ground arith

  pub record Extendable (id : String) (n : Int64) (v : Volume) (b : Backend Ratio) (s : Store Ratio)
      : Type 0 where
    pub there : lookup id s.volumes ≡ some v
    pub grows : sle n v.size_gb ≡ false
    pub found : lookup v.backend_id s.backends ≡ some b
    pub fits : Fits F v.thin_provisioned b (sub64 n v.size_gb)

  pub extend_volume-Extendable :
      (id : String) (n : Int64) (v : Volume) (b : Backend Ratio) (s : Store Ratio)
      → Extendable id n v b s
      → extend_volume F id n s ≡ (
        ok (record v { size_gb = n }),
        put_volume id
            (record v { size_gb = n })
            (put_backend v.backend_id (charge v.thin_provisioned (sub64 n v.size_gb) b) s),
      )
  unfolding extend_volume
  extend_volume-Extendable id n v b s c = ground arith

  pub extend_volume-inv :
      (id : String) (n : Int64) (s : Store Ratio) {w : Volume}
      → (extend_volume F id n s).0 ≡ ok w
      → (v : Volume) × (b : Backend Ratio) × Extendable id n v b s
  unfolding extend_volume
  extend_volume-inv id n s h = elim (Option-cases (lookup id s.volumes)) [
    | inl missing ↦ absurd (ground arith)
    | inr (v, ev) ↦ elim (Option-cases (lookup v.backend_id s.backends)) [
      | inl missing ↦ absurd (ground arith)
      | inr (b, e) ↦ (v, b, ground arith)
    ]
  ]

  pub extend_volume-IsConsistent :
      (id : String) (n : Int64) (s : Store Ratio)
      → IsConsistent s
      → IsConsistent (extend_volume F id n s).1
  extend_volume-IsConsistent id n s c = go (extend_volume F id n s).0 refl
    where
      go :
          (r : Result Error Volume)
          → (extend_volume F id n s).0 ≡ r
          → IsConsistent (extend_volume F id n s).1
      go (err e) h = rw (extend_volume-fails id n s h) c
      go (ok w) h =
          let (v, b, k) = extend_volume-inv id n s h in
          rw (extend_volume-Extendable id n v b s k) (
            placed-IsConsistent s (some v) id v.backend_id (record v { size_gb = n }) b
              (sub64 n v.size_gb) c k.found k.there (refl, refl, refl, sym (add-sub64 v.size_gb n))
              refl)
