-- ===== src/Libvirt/Store.antt =====
-- libvirt-sim/internal/state/store.go: hosts, ports and the domains on a host.
use cirrus_sim.Base.Exec.{◌>>=◌, ◌>>◌, pure, modify, raise_if, gets}
use cirrus_sim.Base.{
  [], ◌∷◌, ◌++◌, ℕ, String, List, Option, [], if◌then◌else◌, none, ◌==◌, string_eq, ◌+◌, ◌%◌,
  length, keep_if, some, is_some, not, nat_eq,
}
use cirrus_sim.Libvirt.Domains.{
  suspend, shut_down, destroy, resume, is_shutoff, is_running, uuid_string,
}
use cirrus_sim.Libvirt.Types.{
  Action, Host, Store, MigrationConfig, Domain, Int32, Time, Error, Stats, host_online, no_domain,
  shutoff, minus_one, host_not_found, host_exists, operation_invalid, port_in_use, operation_denied,
  running,
}
use cirrus_sim.Floats.{Ratios}
use cirrus_sim.Base.Dict.{insert, Dict, lookup, values, erase}
use cirrus_sim.Base.Exec.{Result, or_raise, ok}
use cirrus_sim.Libvirt.Hosts.{used_from, vcpus_of, memory_mb_of, lacks_vcpus, lacks_memory}
use cirrus_sim.Base.Int64.{Int64}

abbrev pub default_migration_config : MigrationConfig
default_migration_config = record {
  prepare_duration_ms = 500;
  base_transfer_duration_ms = 2000;
  per_gb_memory_ms = 500;
  finish_duration_ms = 200;
}

-- the first domain of that name in the order of the list; Go's order is not fixed
unfoldable pub find_by_name : String → Dict String Domain → Option Domain
find_by_name name [] = none
find_by_name name ((_, d) ∷ ds) = if d.name == name then some d else find_by_name name ds

module _ {R : Type 0} where
  -- the domains that the inner loop of `GetStats` meets
  unfoldable pub all_domains : List (Host R) → List Domain
  all_domains [] = []
  all_domains (h ∷ hs) = values h.domains ++ all_domains hs

  -- what that loop adds up, over all the hosts
  unfoldable pub used_by : (Domain → Int64) → Int64 → List (Host R) → Int64
  unfolding used_from
  used_by f acc [] = acc
  used_by f acc (h ∷ hs) = used_by f (used_from f acc h.domains) hs

  -- `NewStore`
  abbrev pub new_store : Store R
  new_store = record {
    hosts = [];
    ports = [];
    next_domain_id = 1;
    migration_config = default_migration_config;
    migration_speed = 9223372036;
  }

  -- `Reset` gives every field anew.
  unfoldable pub reset : Store R → Store R
  reset s = record s {
    hosts = [];
    ports = [];
    next_domain_id = 1;
    migration_config = default_migration_config;
    migration_speed = 9223372036;
  }

  unfoldable pub set_migration_config : MigrationConfig → Store R → Store R
  set_migration_config cfg s = record s { migration_config = cfg }

  unfoldable pub set_migration_speed : ℕ → Store R → Store R
  set_migration_speed speed s = record s { migration_speed = speed }

  unfoldable pub get_host : String → Action R (Host R)
  get_host id = do found ← gets (λ s. lookup id s.hosts); or_raise found host_not_found

  -- the pointer that is returned may be nil
  unfoldable pub get_host_by_port : ℕ → Action R (Option (Host R))
  get_host_by_port port = do
    found ← gets (λ s. lookup port s.ports)
    id ← or_raise found host_not_found
    gets (λ s. lookup id s.hosts)

  unfoldable pub list_hosts : Store R → List (Host R)
  list_hosts s = values s.hosts

  unfoldable pub remove_host : String → Action R (Unit {0})
  unfolding get_host
  remove_host id = do
    h ← get_host id
    modify (λ s. record s { ports = erase h.libvirt_port s.ports })
    modify (λ s. record s { hosts = erase id s.hosts })

  -- a write through the pointer that the map holds for `id`
  unfoldable pub put_host : String → Host R → Store R → Store R
  put_host id h s = record s { hosts = insert id h s.hosts }

  unfoldable pub put_domain : String → Host R → String → Domain → Store R → Store R
  unfolding put_host
  put_domain host_id h uuid d = put_host host_id (record h { domains = insert uuid d h.domains })

  unfoldable pub define_domain : String → Domain → Time → Action R (Unit {0})
  unfolding get_host put_domain
  define_domain host_id d now = do
    h ← get_host host_id
    let stored = record d { state = shutoff; id = minus_one; created_at = now }
    modify (put_domain host_id h (uuid_string d.uuid) stored)

  -- `d, ok := h.Domains[uuid]`
  unfoldable pub domain_on : Host R → String → Action R Domain
  domain_on h uuid = or_raise (lookup uuid h.domains) no_domain

  unfoldable pub get_domain : String → String → Action R Domain
  unfolding get_host domain_on
  get_domain host_id uuid = do h ← get_host host_id; domain_on h uuid

  unfoldable pub get_domain_by_name : String → String → Action R Domain
  unfolding get_host find_by_name
  get_domain_by_name host_id name = do
    h ← get_host host_id
    or_raise (find_by_name name h.domains) no_domain

  unfoldable pub list_domains : String → Action R (List Domain)
  unfolding get_host
  list_domains host_id = do h ← get_host host_id; pure (values h.domains)

  -- `return d.Destroy()` and the like: the domain is changed in place, or the error comes back
  unfoldable pub with_domain :
      (Domain → Result Error Domain) → String → String → Action R (Unit {0})
  unfolding get_host domain_on put_domain
  with_domain f host_id uuid = do
    h ← get_host host_id
    d ← domain_on h uuid
    d' ← (λ s. (f d, s))
    modify (put_domain host_id h uuid d')

  unfoldable pub destroy_domain : String → String → Action R (Unit {0})
  unfolding with_domain destroy
  destroy_domain = with_domain destroy

  unfoldable pub shutdown_domain : String → String → Action R (Unit {0})
  unfolding with_domain shut_down
  shutdown_domain = with_domain shut_down

  unfoldable pub suspend_domain : String → String → Action R (Unit {0})
  unfolding with_domain suspend
  suspend_domain = with_domain suspend

  unfoldable pub resume_domain : String → String → Action R (Unit {0})
  unfolding with_domain resume
  resume_domain = with_domain resume

  unfoldable pub undefine_domain : String → String → Action R (Unit {0})
  unfolding get_host domain_on put_host is_shutoff
  undefine_domain host_id uuid = do
    h ← get_host host_id
    d ← domain_on h uuid
    raise_if (not (is_shutoff d.state)) operation_invalid
    modify (put_host host_id (record h { domains = erase uuid h.domains }))

  -- `s.nextDomainID.Add(1) - 1`: the number before the increment
  unfoldable pub take_domain_id : Action R Int32
  take_domain_id s =
      (ok s.next_domain_id, record s { next_domain_id = (s.next_domain_id + 1) % 0x100000000 })

module _ (F : Ratios) where
  open F use {Ratio, is_zero, one}

  -- the defaults of `AddHost`
  unfoldable pub with_defaults : Host Ratio → Host Ratio
  with_defaults h = record h {
    state = if h.state == "" then host_online else h.state;
    cpu_overcommit_ratio = if is_zero h.cpu_overcommit_ratio then one else h.cpu_overcommit_ratio;
    mem_overcommit_ratio = if is_zero h.mem_overcommit_ratio then one else h.mem_overcommit_ratio;
  }

  unfoldable pub add_host : Host Ratio → Action Ratio (Unit {0})
  unfolding put_host
  add_host h = do
    found ← gets (λ s. lookup h.host_id s.hosts)
    raise_if (is_some found) host_exists
    taken ← gets (λ s. lookup h.libvirt_port s.ports)
    raise_if (is_some taken) port_in_use
    modify (put_host h.host_id (with_defaults h))
    modify (λ s. record s { ports = insert h.libvirt_port h.host_id s.ports })

  unfoldable pub start_domain : String → String → Time → Action Ratio (Unit {0})
  unfolding get_host domain_on put_domain is_shutoff take_domain_id
  start_domain host_id uuid now = do
    h ← get_host host_id
    d ← domain_on h uuid
    raise_if (not (is_shutoff d.state)) operation_invalid
    raise_if (lacks_vcpus F h d) operation_denied
    raise_if (lacks_memory F h d) operation_denied
    id ← take_domain_id
    modify (put_domain host_id h uuid (record d { state = running; id = id; started_at = now }))

  unfoldable pub get_stats : Store Ratio → Stats
  unfolding is_running all_domains used_by
  get_stats s = record {
    total_hosts = length s.hosts;
    online_hosts = length (keep_if (λ h. h.state == host_online) (values s.hosts));
    total_domains = length (all_domains (values s.hosts));
    running_domains = length (keep_if (λ d. is_running d.state) (all_domains (values s.hosts)));
    total_vcpus_used = used_by vcpus_of 0 (values s.hosts);
    total_memory_used = used_by memory_mb_of 0 (values s.hosts);
  }
