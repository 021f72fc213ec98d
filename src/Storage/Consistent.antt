-- ===== src/Storage/Consistent.antt =====
-- The invariant of the storage store (storage-sim/internal/state/store.go), and the store as the
-- volume operations leave it.
use cirrus_sim.Base.{
  String, ◌≡◌, true, Option, some, inl, inr, string_eq, arith, str_iff, is_some, Option-cases,
}
use cirrus_sim.Base.Int64.{Int64}
use cirrus_sim.Base.Dict.{
  Dict, lookup, insert, erase, IsMap, lookup-insert, lookup-erase, insert-IsMap, erase-IsMap,
  lookup-empty,
}
use cirrus_sim.Storage.Types.{Backend, Volume, Store}
use cirrus_sim.Storage.Backends.{charge, refund, put_backend, put_volume, update_backend, new_store}
use cirrus_sim.Storage.Accounting.{
  IsBalanced, Resizes, charge-IsBalanced, refund-IsBalanced, rewrite-IsBalanced,
}

-- The backends exist that the volumes name.
abbrev pub IsHomed : {R : Type 0} → Dict String (Backend R) → Dict String Volume → Type 0
IsHomed bs vs =
    (vid : String) (v : Volume) → lookup vid vs ≡ some v → is_some (lookup v.backend_id bs) ≡ true

pub record IsConsistent {R : Type 0} (s : Store R) : Type 0 where
  pub backend_map : IsMap s.backends
  pub volume_map : IsMap s.volumes
  pub balanced : IsBalanced s.backends s.volumes
  pub homed : IsHomed s.backends s.volumes

module _ {R : Type 0} where
  -- A charge to the backend `bid`, and the volume that it is for.
  abbrev pub placed : String → Backend R → Int64 → Volume → Store R → Store R
  placed bid b n v s = put_volume v.volume_id v (put_backend bid (charge v.thin_provisioned n b) s)

  IsHomed-put :
      (bs : Dict String (Backend R)) (vs : Dict String Volume) (vid bid : String) (b : Backend R)
      (v : Volume)
      → IsHomed bs vs
      → v.backend_id ≡ bid
      → IsHomed (insert bid b bs) (insert vid v vs)
  IsHomed-put bs vs vid bid b v h e k w ew = ground (
    arith,
    lookup-insert vid k v vs,
    lookup-insert bid w.backend_id b bs,
    str_iff bid w.backend_id,
    h k w,
  )

  IsHomed-rewrite :
      (bs : Dict String (Backend R)) (vs : Dict String Volume) (vid : String) (w v : Volume)
      → IsHomed bs vs
      → lookup vid vs ≡ some w
      → v.backend_id ≡ w.backend_id
      → IsHomed bs (insert vid v vs)
  IsHomed-rewrite bs vs vid w v h ew e k x ex =
      ground (arith, lookup-insert vid k v vs, h k x, h vid w)

  IsHomed-erase :
      (bs : Dict String (Backend R)) (vs : Dict String Volume) (vid bid : String) (b : Backend R)
      → IsMap vs
      → IsHomed bs vs
      → IsHomed (insert bid b bs) (erase vid vs)
  IsHomed-erase bs vs vid bid b m h k x ex = ground (
    arith,
    lookup-erase vid k vs m,
    lookup-insert bid x.backend_id b bs,
    str_iff bid x.backend_id,
    h k x,
  )

  pub placed-IsConsistent :
      (s : Store R) (o : Option Volume) (vid bid : String) (v : Volume) (b : Backend R) (n : Int64)
      → IsConsistent s
      → lookup bid s.backends ≡ some b
      → lookup vid s.volumes ≡ o
      → Resizes o v bid n
      → v.backend_id ≡ bid
      → IsConsistent (put_volume vid v (put_backend bid (charge v.thin_provisioned n b) s))
  unfolding put_volume put_backend
  placed-IsConsistent s o vid bid v b n c eb eo r ev = record {
    backend_map = insert-IsMap bid (charge v.thin_provisioned n b) s.backends c.backend_map;
    volume_map = insert-IsMap vid v s.volumes c.volume_map;
    balanced = charge-IsBalanced s.backends s.volumes o vid bid v b n c.balanced eb eo r;
    homed = IsHomed-put s.backends s.volumes vid bid _ v c.homed ev;
  }

  -- A volume rewritten in place, at the same size.
  pub rewritten-IsConsistent :
      (s : Store R) (vid : String) (w v : Volume)
      → IsConsistent s
      → lookup vid s.volumes ≡ some w
      → v.backend_id ≡ w.backend_id
      → v.thin_provisioned ≡ w.thin_provisioned
      → v.size_gb ≡ w.size_gb
      → IsConsistent (put_volume vid v s)
  unfolding put_volume
  rewritten-IsConsistent s vid w v c ew e1 e2 e3 = record {
    backend_map = c.backend_map;
    volume_map = insert-IsMap vid v s.volumes c.volume_map;
    balanced = rewrite-IsBalanced s.backends s.volumes vid w v c.balanced ew e1 e2 e3;
    homed = IsHomed-rewrite s.backends s.volumes vid w v c.homed ew e1;
  }

  update_backend-some :
      (id : String) (f : Backend R → Backend R) (s : Store R) {b : Backend R}
      → lookup id s.backends ≡ some b
      → update_backend id f s ≡ put_backend id (f b) s
  unfolding update_backend put_backend
  update_backend-some id f s e = rw (e, update_backend)

  removed_at-IsConsistent :
      (s : Store R) (vid : String) (v : Volume) (b : Backend R)
      → IsConsistent s
      → lookup vid s.volumes ≡ some v
      → lookup v.backend_id s.backends ≡ some b
      → let t = put_backend v.backend_id (refund v.thin_provisioned v.size_gb b) s in
        IsConsistent (record t { volumes = erase vid t.volumes })
  unfolding put_backend
  removed_at-IsConsistent s vid v b c ev eb = record {
    backend_map = insert-IsMap v.backend_id _ s.backends c.backend_map;
    volume_map = erase-IsMap vid s.volumes c.volume_map;
    balanced = refund-IsBalanced s.backends s.volumes vid v b c.balanced eb ev;
    homed = IsHomed-erase s.backends s.volumes vid v.backend_id _ c.volume_map c.homed;
  }

  -- The store after a delete: the capacity is refunded and the volume is gone.
  abbrev pub removed : String → Volume → Store R → Store R
  removed vid v s =
      let t = update_backend v.backend_id (refund v.thin_provisioned v.size_gb) s in
      record t { volumes = erase vid t.volumes }

  pub removed-IsConsistent :
      (s : Store R) (vid : String) (v : Volume)
      → IsConsistent s
      → lookup vid s.volumes ≡ some v
      → IsConsistent (removed vid v s)
  removed-IsConsistent s vid v c ev = elim (Option-cases (lookup v.backend_id s.backends)) [
    | inl missing ↦ absurd (ground (arith, c.homed vid v))
    | inr (b, eb) ↦
        rw (update_backend-some v.backend_id (refund v.thin_provisioned v.size_gb) s eb)
          (removed_at-IsConsistent s vid v b c ev eb)
  ]

  pub new_store-IsConsistent : IsConsistent (new_store {R = R})
  new_store-IsConsistent = record {
    backend_map = tt;
    volume_map = tt;
    balanced = λ id b e. cc (lookup-empty {V = Backend R} id);
    homed = λ k v e. cc (lookup-empty {V = Volume} k);
  }
