-- ===== src/Storage/Volumes.antt =====
-- storage-sim/internal/state/store.go: the operations on volumes.
use cirrus_sim.Base.{
  String, not, ◌||◌, ◌&&◌, none, some, List, ◌==◌, string_eq, nat_eq, length, ltb, keep_if, is_some,
}
use cirrus_sim.Base.Int64.{Int64, sub64, sle}
use cirrus_sim.Base.Dict.{lookup, erase, values}
use cirrus_sim.Base.Exec.{◌>>=◌, ◌>>◌, pure, gets, or_raise, raise_if, modify}
use cirrus_sim.Storage.Types.{
  Ratios, Volume, Store, Action, Time, backend_active, volume_available, volume_in_use,
  empty_volume_id, volume_exists, backend_not_active, insufficient_capacity, volume_not_found,
  volume_in_use_error, volume_has_snapshots, shrink_not_allowed, volume_already_exported,
  volume_not_exported,
}
use cirrus_sim.Storage.Backends.{
  get_backend, put_backend, put_volume, update_backend, charge, refund, exceeds,
}

module _ {R : Type 0} where
  unfoldable pub get_volume : String → Action R Volume
  get_volume id = do found ← gets (λ s. lookup id s.volumes); or_raise found volume_not_found

  -- an empty filter passes everything
  unfoldable pub list_volumes : String → String → Store R → List Volume
  list_volumes backend_id state_filter s =
      keep_if
        (λ v.
          (backend_id == "" || v.backend_id == backend_id)
          && (state_filter == "" || v.state == state_filter))
        (values s.volumes)

  unfoldable pub delete_volume : String → Action R (Unit {0})
  unfolding get_volume update_backend refund
  delete_volume id = do
    v ← get_volume id
    raise_if (v.state == volume_in_use) volume_in_use_error
    raise_if (ltb 0 (length v.snapshots)) volume_has_snapshots
    modify (update_backend v.backend_id (refund v.thin_provisioned v.size_gb))
    modify (λ s. record s { volumes = erase id s.volumes })

  unfoldable pub export_volume : String → String → String → Action R Volume
  unfolding get_volume put_volume
  export_volume id host_id protocol = do
    v ← get_volume id
    raise_if (v.state == volume_in_use) volume_already_exported
    let v' = record v {
      state = volume_in_use;
      export_info = some (record { host_id = host_id; protocol = protocol });
    }
    modify (put_volume id v')
    pure v'

  unfoldable pub unexport_volume : String → Action R Volume
  unfolding get_volume put_volume
  unexport_volume id = do
    v ← get_volume id
    raise_if (not (v.state == volume_in_use)) volume_not_exported
    let v' = record v { state = volume_available; export_info = none }
    modify (put_volume id v')
    pure v'

module _ (F : Ratios) where
  open F use {Ratio}

  unfoldable pub create_volume : Volume → Time → Action Ratio Volume
  unfolding get_backend put_backend put_volume exceeds charge
  create_volume v now = do
    raise_if (v.volume_id == "") empty_volume_id
    found ← gets (λ s. lookup v.volume_id s.volumes)
    raise_if (is_some found) volume_exists
    b ← get_backend v.backend_id
    raise_if (not (b.state == backend_active)) backend_not_active
    raise_if (exceeds F v.thin_provisioned b v.size_gb) insufficient_capacity
    modify (put_backend v.backend_id (charge v.thin_provisioned v.size_gb b))
    let stored = record v { state = volume_available; consumed_gb = 0; created_at = now }
    modify (put_volume v.volume_id stored)
    pure stored

  unfoldable pub extend_volume : String → Int64 → Action Ratio Volume
  unfolding get_volume get_backend put_backend put_volume exceeds charge
  extend_volume id new_size_gb = do
    v ← get_volume id
    raise_if (sle new_size_gb v.size_gb) shrink_not_allowed
    b ← get_backend v.backend_id
    let diff = sub64 new_size_gb v.size_gb
    raise_if (exceeds F v.thin_provisioned b diff) insufficient_capacity
    modify (put_backend v.backend_id (charge v.thin_provisioned diff b))
    let v' = record v { size_gb = new_size_gb }
    modify (put_volume id v')
    pure v'
