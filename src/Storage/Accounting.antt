-- ===== src/Storage/Accounting.antt =====
-- The capacity accounts of storage-sim/internal/state/store.go: what a backend records as allocated
-- and as used, against the volumes that lie on it. Sums are of `int64` patterns, modulo 2 ^ 64.
use cirrus_sim.Base.{
  ℕ, ◌+◌, ◌%◌, String, ◌≡◌, not, ◌&&◌, Option, none, some, ◌==◌, string_eq, arith, str_iff,
  if◌then◌else◌,
}
use cirrus_sim.Base.Int64.{Int64, two64, add64, sub64}
use cirrus_sim.Base.Dict.{
  Dict, lookup, insert, erase, total, lookup-insert, erase, total-insert, total-erase,
}
use cirrus_sim.Storage.Types.{Backend, Volume}
use cirrus_sim.Storage.Backends.{charge, refund}

abbrev pub alloc_on : String → Volume → Int64
alloc_on id v = if v.backend_id == id then v.size_gb else 0

abbrev pub used_on : String → Volume → Int64
used_on id v = if v.backend_id == id && not v.thin_provisioned then v.size_gb else 0

abbrev pub Agrees : ℕ → ℕ → Type 0
Agrees a b = a % two64 ≡ b % two64

-- The accounts of one backend agree with the volumes on it.
pub record Accounts {R : Type 0} (vs : Dict String Volume) (id : String) (b : Backend R)
    : Type 0 where
  pub allocated : Agrees b.allocated_capacity_gb (total (alloc_on id) vs)
  pub used : Agrees b.used_capacity_gb (total (used_on id) vs)

abbrev pub IsBalanced : {R : Type 0} → Dict String (Backend R) → Dict String Volume → Type 0
IsBalanced {R} bs vs = (id : String) (b : Backend R) → lookup id bs ≡ some b → Accounts vs id b

-- A volume `v` that replaces `o`, on the backend `bid` that it already lay on, if it was there.
abbrev pub Resizes : Option Volume → Volume → String → Int64 → Type 0
Resizes none v bid n = (v.backend_id ≡ bid) × (Agrees v.size_gb n)
Resizes (some w) v bid n =
    (v.backend_id ≡ bid)
    × (w.backend_id ≡ bid)
    × (w.thin_provisioned ≡ v.thin_provisioned)
    × (Agrees v.size_gb (w.size_gb + n))

-- the totals of every backend, when a volume is written
total-put_alloc :
    (vs : Dict String Volume) (o : Option Volume) (vid bid id : String) (v : Volume) (n : Int64)
    → lookup vid vs ≡ o
    → Resizes o v bid n
    → Agrees
        (total (alloc_on id) (insert vid v vs))
        (total (alloc_on id) vs + (if bid == id then n else 0))
total-put_alloc vs none vid bid id v n e h =
    ground (arith, total-insert (alloc_on id) vid v vs, str_iff bid id, str_iff v.backend_id id)
total-put_alloc vs (some w) vid bid id v n e h = ground (
  arith,
  total-insert (alloc_on id) vid v vs,
  str_iff bid id,
  str_iff v.backend_id id,
  str_iff w.backend_id id,
)

total-put_used :
    (vs : Dict String Volume) (o : Option Volume) (vid bid id : String) (v : Volume) (n : Int64)
    → lookup vid vs ≡ o
    → Resizes o v bid n
    → Agrees
        (total (used_on id) (insert vid v vs))
        (total (used_on id) vs + (if bid == id then (if v.thin_provisioned then 0 else n) else 0))
total-put_used vs none vid bid id v n e h =
    ground (arith, total-insert (used_on id) vid v vs, str_iff bid id, str_iff v.backend_id id)
total-put_used vs (some w) vid bid id v n e h = ground (
  arith,
  total-insert (used_on id) vid v vs,
  str_iff bid id,
  str_iff v.backend_id id,
  str_iff w.backend_id id,
)

module _ {R : Type 0} where
  -- A charge and the volume that it is for leave the accounts balanced.
  pub charge-IsBalanced :
      (bs : Dict String (Backend R)) (vs : Dict String Volume) (o : Option Volume)
      (vid bid : String) (v : Volume) (b : Backend R) (n : Int64)
      → IsBalanced bs vs
      → lookup bid bs ≡ some b
      → lookup vid vs ≡ o
      → Resizes o v bid n
      → IsBalanced (insert bid (charge v.thin_provisioned n b) bs) (insert vid v vs)
  unfolding charge add64
  charge-IsBalanced bs vs o vid bid v b n h eb eo r id c ec = ground (
    arith,
    lookup-insert bid id (charge v.thin_provisioned n b) bs,
    str_iff bid id,
    h id c,
    h bid b,
    total-put_alloc vs o vid bid id v n eo r,
    total-put_used vs o vid bid id v n eo r,
  )

  -- Writing a volume anew, at the same size and on the same backend, changes no account.
  pub rewrite-IsBalanced :
      (bs : Dict String (Backend R)) (vs : Dict String Volume) (vid : String) (w v : Volume)
      → IsBalanced bs vs
      → lookup vid vs ≡ some w
      → v.backend_id ≡ w.backend_id
      → v.thin_provisioned ≡ w.thin_provisioned
      → v.size_gb ≡ w.size_gb
      → IsBalanced bs (insert vid v vs)
  rewrite-IsBalanced bs vs vid w v h ew e1 e2 e3 id c ec =
      ground
        (arith, h id c, total-insert (alloc_on id) vid v vs, total-insert (used_on id) vid v vs)

  -- A refund and the removal of the volume that it is for leave the accounts balanced.
  pub refund-IsBalanced :
      (bs : Dict String (Backend R)) (vs : Dict String Volume) (vid : String) (v : Volume)
      (b : Backend R)
      → IsBalanced bs vs
      → lookup v.backend_id bs ≡ some b
      → lookup vid vs ≡ some v
      → IsBalanced (insert v.backend_id (refund v.thin_provisioned v.size_gb b) bs) (erase vid vs)
  unfolding refund sub64
  refund-IsBalanced bs vs vid v b h eb ev id c ec = ground (
    arith,
    lookup-insert v.backend_id id (refund v.thin_provisioned v.size_gb b) bs,
    str_iff v.backend_id id,
    h id c,
    h v.backend_id b,
    total-erase (alloc_on id) vid vs,
    total-erase (used_on id) vid vs,
  )
