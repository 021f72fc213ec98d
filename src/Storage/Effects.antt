-- ===== src/Storage/Effects.antt =====
-- The capacity test and the accounts of storage-sim/internal/state/store.go, written out for the
-- statements about its volume operations.
use cirrus_sim.Base.{Bool, String, Option, none, some, ◌≡◌, false, if◌then◌else◌, string_eq}
use cirrus_sim.Base.Int64.{Int64, slt, add64, sub64}
use cirrus_sim.Base.Dict.{Dict, insert, erase, lookup}
use cirrus_sim.Storage.Types.{Backend, Volume, Store, Ratios}

module _ {R : Type 0} where
  abbrev pub charged : Bool → Int64 → Backend R → Backend R
  charged thin n b = record b {
    allocated_capacity_gb = add64 b.allocated_capacity_gb n;
    used_capacity_gb = if thin then b.used_capacity_gb else add64 b.used_capacity_gb n;
  }

  -- the backends after a refund, where the backend is there
  abbrev pub refunded_at :
      String → Bool → Int64 → Option (Backend R) → Dict String (Backend R) → Dict String (Backend R)
  refunded_at id thin n none bs = bs
  refunded_at id thin n (some b) bs =
      insert id
        (record b {
          allocated_capacity_gb = sub64 b.allocated_capacity_gb n;
          used_capacity_gb = if thin then b.used_capacity_gb else sub64 b.used_capacity_gb n;
        })
        bs

  -- a volume written, and the account of its backend
  abbrev pub stored : String → Volume → String → Backend R → Store R → Store R
  stored id v backend_id b s = record s {
    backends = insert backend_id b s.backends;
    volumes = insert id v s.volumes;
  }

  abbrev pub deleted : String → Volume → Store R → Store R
  deleted id v s = record s {
    backends =
        refunded_at v.backend_id v.thin_provisioned v.size_gb (lookup v.backend_id s.backends)
          s.backends;
    volumes = erase id s.volumes;
  }

module _ (F : Ratios) where
  open F use {Ratio, scale}

  -- a thin volume is held against the overprovisioned total, a thick one against the total
  abbrev pub Fits : Bool → Backend Ratio → Int64 → Type 0
  Fits thin b n =
      (if thin
        then slt (scale b.total_capacity_gb b.overprovision_ratio) (add64 b.allocated_capacity_gb n)
        else slt b.total_capacity_gb (add64 b.used_capacity_gb n))
      ≡ false
