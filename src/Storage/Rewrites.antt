-- ===== src/Storage/Rewrites.antt =====
-- Operations of storage-sim/internal/state/store.go on one volume that move no capacity.
use cirrus_sim.Base.{◌≡◌, String, ◌⊎◌, inl, inr, some, string_eq}
use cirrus_sim.Storage.Backends.{put_volume}
use cirrus_sim.Storage.Types.{Store, Volume}
use cirrus_sim.Storage.Consistent.{IsConsistent, rewritten-IsConsistent}
use cirrus_sim.Base.Dict.{lookup, insert}

module _ {R : Type 0} where
  -- An operation on one volume that leaves the store alone or rewrites the volume at its size.
  abbrev pub Rewrites : String → Store R → Store R → Type 0
  Rewrites id s s' =
      ((s'.backends ≡ s.backends) × (s'.volumes ≡ s.volumes))
      ⊎ ((w : Volume) × (v : Volume) × (lookup id s.volumes ≡ some w)
          × (v.backend_id ≡ w.backend_id)
          × (v.thin_provisioned ≡ w.thin_provisioned)
          × (v.size_gb ≡ w.size_gb)
          × (s'.backends ≡ s.backends)
          × (s'.volumes ≡ insert id v s.volumes))

  -- The invariant speaks of the backends and the volumes only.
  pub IsConsistent-of :
      (s s' : Store R)
      → s'.backends ≡ s.backends
      → s'.volumes ≡ s.volumes
      → IsConsistent s
      → IsConsistent s'
  IsConsistent-of s s' eb ev c = record {
    backend_map = rw eb c.backend_map;
    volume_map = rw ev c.volume_map;
    balanced = rw (eb, ev) c.balanced;
    homed = rw (eb, ev) c.homed;
  }

  pub Rewrites-IsConsistent :
      (id : String) (s s' : Store R) → Rewrites id s s' → IsConsistent s → IsConsistent s'
  unfolding put_volume
  Rewrites-IsConsistent id s s' (inl (eb, ev)) c = IsConsistent-of s s' eb ev c
  Rewrites-IsConsistent id s s' (inr (w, v, ew, e1, e2, e3, eb, ev)) c =
      IsConsistent-of (put_volume id v s) s' eb ev (rewritten-IsConsistent s id w v c ew e1 e2 e3)
