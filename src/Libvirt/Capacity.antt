-- ===== src/Libvirt/Capacity.antt =====
-- The capacity tests of libvirt-sim/internal/state/store.go, for a start and for a migration in.
use cirrus_sim.Base.Exec.{ok, err}
use cirrus_sim.Base.{
  [], ◌∷◌, ℕ, ◌+◌, ◌%◌, ◌≡◌, String, if◌then◌else◌, some, ◌<◌, true, arith, Option-cases, false,
  inl, string_eq, inr,
}
use cirrus_sim.Libvirt.Types.{Domain, Store, Int32, Host, Time, Error, running, shutoff}
use cirrus_sim.Floats.{Ratios}
use cirrus_sim.Base.Int64.{add64, Int64, slt, two64}
use cirrus_sim.Libvirt.Hosts.{
  used_from, lacks_vcpus, lacks_memory, available_vcpus, used_vcpus, vcpus_of, memory_mb_of,
  available_memory_mb, used_memory_mb,
}
use cirrus_sim.Libvirt.Store.{start_domain, put_domain}
use cirrus_sim.Base.Dict.{total, lookup, Dict, weight, insert, total-insert}
use cirrus_sim.Libvirt.Domains.{is_active}

-- what a domain counts for in the loop
abbrev pub active_weight : (Domain → Int64) → Domain → ℕ
active_weight f d = if is_active d.state then f d else 0

used_from-total :
    (f : Domain → Int64) (acc : Int64) (ds : Dict String Domain)
    → used_from f acc ds % two64 ≡ (acc + total (active_weight f) ds) % two64
unfolding used_from total add64
used_from-total f acc [] = omega arith
used_from-total f acc ((k, d) ∷ ds) =
    ground (arith, used_from-total f (if is_active d.state then add64 acc (f d) else acc) ds)

used_from-lt :
    (f : Domain → Int64) (acc : Int64) (ds : Dict String Domain)
    → acc < two64
    → used_from f acc ds < two64
unfolding used_from add64
used_from-lt f acc [] h = h
used_from-lt f acc ((k, d) ∷ ds) h =
    ground (arith, used_from-lt f (if is_active d.state then add64 acc (f d) else acc) ds)

-- The loop over a host's domains computes the sum over the active ones, modulo 2 ^ 64.
pub used_from-eq :
    (f : Domain → Int64) (ds : Dict String Domain)
    → used_from f 0 ds ≡ total (active_weight f) ds % two64
used_from-eq f ds = omega (arith, used_from-total f 0 ds, used_from-lt f 0 ds (omega arith))

-- A domain that becomes active, and was not there or not active, adds its part.
used_from-insert :
    (f : Domain → Int64) (uuid : String) (d : Domain) (ds : Dict String Domain)
    → weight (active_weight f) (lookup uuid ds) ≡ 0
    → is_active d.state ≡ true
    → used_from f 0 (insert uuid d ds) ≡ add64 (used_from f 0 ds) (f d)
unfolding add64
used_from-insert f uuid d ds h a = ground (
  arith,
  used_from-eq f ds,
  used_from-eq f (insert uuid d ds),
  total-insert (active_weight f) uuid d ds,
)

module _ (F : Ratios) where
  open F use {Ratio}

  -- What the host's domains use is within what it has, by the test of the code itself.
  pub record IsWithin (h : Host Ratio) : Type 0 where
    pub vcpus : slt (available_vcpus F h) (used_vcpus h) ≡ false
    pub memory : slt (available_memory_mb F h) (used_memory_mb h) ≡ false

  pub insert-IsWithin :
      (h : Host Ratio) (uuid : String) (d d' : Domain)
      → weight (active_weight vcpus_of) (lookup uuid h.domains) ≡ 0
      → weight (active_weight memory_mb_of) (lookup uuid h.domains) ≡ 0
      → is_active d'.state ≡ true
      → d'.vcpus ≡ d.vcpus
      → d'.memory_kib ≡ d.memory_kib
      → lacks_vcpus F h d ≡ false
      → lacks_memory F h d ≡ false
      → IsWithin (record h { domains = insert uuid d' h.domains })
  unfolding lacks_vcpus lacks_memory
  insert-IsWithin h uuid d d' w m a ec em lv lm = record {
    vcpus = rw (used_from-insert vcpus_of uuid d' h.domains w a, ec) lv;
    memory = rw (used_from-insert memory_mb_of uuid d' h.domains m a, em) lm;
  }

  -- Why a domain can be started.
  pub record Startable (host_id uuid : String) (h : Host Ratio) (d : Domain) (s : Store Ratio)
      : Type 0 where
    pub host : lookup host_id s.hosts ≡ some h
    pub there : lookup uuid h.domains ≡ some d
    pub off : d.state ≡ shutoff
    pub vcpus_fit : lacks_vcpus F h d ≡ false
    pub memory_fits : lacks_memory F h d ≡ false

  abbrev pub started : Int32 → Time → Domain → Domain
  started id now d = record d { state = running; id = id; started_at = now }

  abbrev pub next_id : Store Ratio → Store Ratio
  next_id s = record s { next_domain_id = (s.next_domain_id + 1) % 0x100000000 }

  pub start_domain-fails :
      (host_id uuid : String) (now : Time) (s : Store Ratio) {e : Error}
      → (start_domain F host_id uuid now s).0 ≡ err e
      → (start_domain F host_id uuid now s).1 ≡ s
  unfolding start_domain
  start_domain-fails host_id uuid now s h = ground arith

  pub start_domain-inv :
      (host_id uuid : String) (now : Time) (s : Store Ratio)
      → (start_domain F host_id uuid now s).0 ≡ ok tt
      → (h : Host Ratio) × (d : Domain) × Startable host_id uuid h d s
  unfolding start_domain
  start_domain-inv host_id uuid now s p = elim (Option-cases (lookup host_id s.hosts)) [
    | inl missing ↦ absurd (ground arith)
    | inr (h, eh) ↦ elim (Option-cases (lookup uuid h.domains)) [
      | inl missing ↦ absurd (ground arith)
      | inr (d, ed) ↦ (h, d, ground arith)
    ]
  ]

  pub start_domain-Startable :
      (host_id uuid : String) (now : Time) (h : Host Ratio) (d : Domain) (s : Store Ratio)
      → Startable host_id uuid h d s
      → start_domain F host_id uuid now s
        ≡ (ok tt, put_domain host_id h uuid (started s.next_domain_id now d) (next_id s))
  unfolding start_domain
  start_domain-Startable host_id uuid now h d s k = ground arith
