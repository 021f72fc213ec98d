-- ===== src/Libvirt/Hosts.antt =====
-- libvirt-sim/internal/state/host.go: what a host has and what its domains use.
use cirrus_sim.Base.{[], ◌∷◌, Option, Bool, String, if◌then◌else◌, some, none}
use cirrus_sim.Libvirt.Types.{Domain, Host, Error, insufficient_vcpus, insufficient_memory}
use cirrus_sim.Floats.{Ratios}
use cirrus_sim.Libvirt.Domains.{is_active}
use cirrus_sim.Base.Int64.{Int64, div64, mul64, slt, add64}
use cirrus_sim.Base.Dict.{Dict}

-- The loop that adds up `f` over the domains that run or are paused.
unfoldable pub used_from : (Domain → Int64) → Int64 → Dict String Domain → Int64
unfolding is_active
used_from f acc [] = acc
used_from f acc ((_, d) ∷ ds) = used_from f (if is_active d.state then add64 acc (f d) else acc) ds

abbrev pub vcpus_of : Domain → Int64
vcpus_of d = d.vcpus

-- `d.MemoryKiB / 1024`
abbrev pub memory_mb_of : Domain → Int64
memory_mb_of d = div64 d.memory_kib 1024

module _ {R : Type 0} where
  unfoldable pub total_vcpus : Host R → Int64
  total_vcpus h = mul64 (mul64 h.cpu_sockets h.cores_per_socket) h.threads_per_core

  unfoldable pub used_vcpus : Host R → Int64
  used_vcpus h = used_from vcpus_of 0 h.domains

  unfoldable pub used_memory_mb : Host R → Int64
  used_memory_mb h = used_from memory_mb_of 0 h.domains

module _ (F : Ratios) where
  open F use {Ratio, scale}

  unfoldable pub available_vcpus : Host Ratio → Int64
  unfolding total_vcpus
  available_vcpus h = scale (total_vcpus h) h.cpu_overcommit_ratio

  unfoldable pub available_memory_mb : Host Ratio → Int64
  available_memory_mb h = scale h.memory_mb h.mem_overcommit_ratio

  -- `usedVCPUs+d.VCPUs > h.AvailableVCPUs()`
  unfoldable pub lacks_vcpus : Host Ratio → Domain → Bool
  unfolding used_vcpus available_vcpus
  lacks_vcpus h d = slt (available_vcpus h) (add64 (used_vcpus h) d.vcpus)

  -- `usedMemMB+memMB > h.AvailableMemoryMB()`
  unfoldable pub lacks_memory : Host Ratio → Domain → Bool
  unfolding used_memory_mb available_memory_mb
  lacks_memory h d = slt (available_memory_mb h) (add64 (used_memory_mb h) (memory_mb_of d))

  -- `CanAllocate`, whose arguments are a domain's
  unfoldable pub can_allocate : Host Ratio → Domain → Option Error
  unfolding lacks_vcpus lacks_memory
  can_allocate h d =
      if lacks_vcpus h d
      then some insufficient_vcpus
      else if lacks_memory h d
      then some insufficient_memory
      else none
