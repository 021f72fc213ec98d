-- ===== src/Libvirt/Starts.antt =====
-- `StartDomain` of libvirt-sim/internal/state/store.go.
use cirrus_sim.Base.{◌≡◌, refl, String, some, string_eq}
use cirrus_sim.Floats.{Ratios}
use cirrus_sim.Libvirt.Domains.{is_active}
use cirrus_sim.Libvirt.Types.{Time, Domain, Store, Host, shutoff}
use cirrus_sim.Base.Int64.{Int64}
use cirrus_sim.Base.Decides.{Decides, decides}
use cirrus_sim.Libvirt.Store.{start_domain, put_domain}
use cirrus_sim.Base.Exec.{ok}
use cirrus_sim.Base.Dict.{lookup, weight, insert, lookup-insert_self}
use cirrus_sim.Libvirt.Capacity.{
  Startable, started, IsWithin, next_id, start_domain-inv, active_weight, start_domain-fails,
  start_domain-Startable, insert-IsWithin,
}
use cirrus_sim.Libvirt.Hosts.{vcpus_of, memory_mb_of}

module _ (F : Ratios) where
  open F use {Ratio}

  shutoff_weight :
      (f : Domain → Int64) (uuid : String) (d : Domain) (h : Host Ratio)
      → lookup uuid h.domains ≡ some d
      → d.state ≡ shutoff
      → weight (active_weight f) (lookup uuid h.domains) ≡ 0
  unfolding is_active
  shutoff_weight f uuid d h e off = rw (e, off) refl

  -- `StartDomain` goes through exactly when the host and the domain are there, the domain is shut
  -- off, and its vCPUs and its memory fit beside what the host's active domains use. It then makes the
  -- domain run under the next number, and the counter goes up. Otherwise it returns an error and
  -- changes nothing.
  pub start_domain-Decides :
      (host_id uuid : String) (now : Time) (s : Store Ratio)
      → Decides
          (λ (c : Host Ratio × Domain). Startable F host_id uuid c.0 c.1 s)
          (λ c. tt)
          (λ c. put_domain host_id c.0 uuid (started F s.next_domain_id now c.1) (next_id F s))
          (start_domain F host_id uuid now s)
          s
  start_domain-Decides host_id uuid now s =
      decides _ _ _ _ s (λ e h. start_domain-fails F host_id uuid now s h)
        (λ a h. let (x, d, k) = start_domain-inv F host_id uuid now s h in ((x, d), k))
        (λ c k. start_domain-Startable F host_id uuid now c.0 c.1 s k)

  -- After a start that went through, what the host's running and paused domains use, added up anew
  -- with the arithmetic of `int64`, is within what the host has, for vCPUs and for memory.
  pub start_domain-IsWithin :
      (host_id uuid : String) (now : Time) (s : Store Ratio)
      → (start_domain F host_id uuid now s).0 ≡ ok tt
      → (h : Host Ratio) × (lookup host_id (start_domain F host_id uuid now s).1.hosts ≡ some h)
        × IsWithin F h
  start_domain-IsWithin host_id uuid now s p =
      let (h, d, k) = start_domain-inv F host_id uuid now s p in
      (
        record h { domains = insert uuid (started F s.next_domain_id now d) h.domains },
        rw (start_domain-Startable F host_id uuid now h d s k)
            (unfold put_domain in lookup-insert_self host_id _ s.hosts),
        insert-IsWithin F h uuid d (started F s.next_domain_id now d)
            (shutoff_weight vcpus_of uuid d h k.there k.off)
            (shutoff_weight memory_mb_of uuid d h k.there k.off) (unfold is_active in refl) refl
            refl k.vcpus_fit k.memory_fits,
      )
