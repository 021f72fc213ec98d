-- ===== src/Tests/Domains.antt =====
-- The libvirt simulator on concrete data.
use cirrus_sim.Base.Int64.{slt, mul64, add64, div64}
use cirrus_sim.Base.Format.{hexadecimal}
use cirrus_sim.Tests.{percent}
use cirrus_sim.Base.{
  ◌≡◌, ℕ, String, none, some, refl, str_iff, arith, ◌⊎◌, ◌∷◌, [], List, string_eq, ◌≢◌,
}
use cirrus_sim.Base.Exec.{ok, err}
use cirrus_sim.Libvirt.Types.{
  Domain, Host, Store, shutoff, running, idle, minus_one, host_not_found,
}
use cirrus_sim.Libvirt.Runs.{Call, serve_all, get_host_by_port-serve_all}
use cirrus_sim.Libvirt.Store.{new_store, get_host_by_port, start_domain, put_domain}
use cirrus_sim.Libvirt.Starts.{start_domain-Decides, start_domain-IsWithin}
use cirrus_sim.Libvirt.LiveMigration.{live_migration, live_migration_moves, CanReceive, arrived}
use cirrus_sim.Base.Decides.{Decides}
use cirrus_sim.Libvirt.Domains.{uuid_string}
use cirrus_sim.Base.Dict.{lookup}
use cirrus_sim.Libvirt.Hosts.{lacks_vcpus, lacks_memory, used_from}
use cirrus_sim.Libvirt.Capacity.{IsWithin, Startable, started, next_id}

abbrev domain : Domain
domain = record {
  name = "vm-1";
  uuid = 0x0a ∷ 1 ∷ 2 ∷ 3 ∷ 4 ∷ 5 ∷ 6 ∷ 7 ∷ 8 ∷ 9 ∷ 10 ∷ 11 ∷ 12 ∷ 13 ∷ 14 ∷ 15 ∷ [];
  id = minus_one;
  state = shutoff;
  vcpus = 4;
  memory_kib = 4194304;
  xml = "";
  created_at = 5;
  started_at = 0;
  interface_ids = [];
  migration_state = idle;
  migration_cookie = "";
}

abbrev uuid : String
uuid = "0a010203-0405-0607-0809-0a0b0c0d0e0f"

domain_uuid : uuid_string domain.uuid ≡ uuid
unfolding uuid_string hexadecimal
domain_uuid = refl

abbrev host : Host ℕ
host = record {
  host_id = "host-1";
  libvirt_port = 16509;
  cpu_model = "EPYC";
  cpu_sockets = 1;
  cores_per_socket = 4;
  threads_per_core = 2;
  memory_mb = 8192;
  cpu_overcommit_ratio = 100;
  mem_overcommit_ratio = 100;
  numa_topology = [];
  gpus = [];
  state = "online";
  domains = (uuid, domain) ∷ [];
}

abbrev other : Host ℕ
other = record host { host_id = "host-2"; libvirt_port = 16510; domains = [] }

abbrev store : Store ℕ
store = record new_store {
  hosts = ("host-1", host) ∷ ("host-2", other) ∷ [];
  ports = (16509, "host-1") ∷ (16510, "host-2") ∷ [];
}

abbrev calls : List (ℕ × Call ℕ)
calls =
    (1, Call.add_host_call other)
    ∷ (2, Call.define_domain_call "host-2" domain)
    ∷ (3, Call.start_domain_call "host-2" uuid)
    ∷ []

get_host_by_port-serve_all_example :
    let s = serve_all percent calls new_store in
    ((get_host_by_port 16510 s ≡ (err host_not_found, s))
      ⊎ ((h : Host ℕ) × (get_host_by_port 16510 s ≡ (ok (some h), s)) × (h.libvirt_port ≡ 16510)))
    × ((id : String) (h : Host ℕ)
        → lookup id s.hosts ≡ some h
        → get_host_by_port h.libvirt_port s ≡ (ok (some h), s))
get_host_by_port-serve_all_example = get_host_by_port-serve_all percent calls 16510

start_domain-Decides_example :
    Decides
      (λ (c : Host ℕ × Domain). Startable percent "host-1" uuid c.0 c.1 store)
      (λ c. tt)
      (λ c. put_domain "host-1" c.0 uuid (started percent 1 7 c.1) (next_id percent store))
      (start_domain percent "host-1" uuid 7 store)
      store
start_domain-Decides_example = start_domain-Decides percent "host-1" uuid 7 store

start_domain-IsWithin_example :
    (h : Host ℕ) × (lookup "host-1" (start_domain percent "host-1" uuid 7 store).1.hosts ≡ some h)
    × IsWithin percent h
unfolding start_domain lookup lacks_vcpus slt mul64 add64 used_from lacks_memory div64
start_domain-IsWithin_example = start_domain-IsWithin percent "host-1" uuid 7 store refl

-- The domain runs on the first host, and moves to the second.
abbrev active : Domain
active = record domain { state = running; id = 1; started_at = 7 }

abbrev source : Host ℕ
source = record host { domains = (uuid, active) ∷ [] }

abbrev busy : Store ℕ
busy = record store { hosts = ("host-1", source) ∷ ("host-2", other) ∷ []; next_domain_id = 2 }

other-CanReceive : CanReceive percent "host-2" other active busy
unfolding lookup uuid_string lacks_vcpus lacks_memory slt mul64 add64 used_from div64
other-CanReceive = record {
  host = refl;
  online = refl;
  unknown = refl;
  vcpus_fit = refl;
  memory_fits = refl;
}

live_migration_moves_example :
    let (r, t) = live_migration percent "host-1" "host-2" active 9 busy in
    (r ≡ ok (arrived 2 9 active))
    × ((h : Host ℕ) × (lookup "host-2" t.hosts ≡ some h)
        × (lookup (uuid_string active.uuid) h.domains ≡ some (arrived 2 9 active)))
    × ((h : Host ℕ) × (lookup "host-1" t.hosts ≡ some h)
        × (lookup (uuid_string active.uuid) h.domains ≡ none))
    × ((id : String) → id ≢ "host-1" → id ≢ "host-2" → lookup id t.hosts ≡ lookup id busy.hosts)
unfolding lookup uuid_string hexadecimal
live_migration_moves_example =
    live_migration_moves percent "host-1" "host-2" 9 source other active busy
      (λ e. absurd (ground (arith, str_iff "host-1" "host-2"))) refl refl refl refl other-CanReceive
      (refl, tt)
