-- ===== src/Libvirt/Migration.antt =====
-- libvirt-sim/internal/state/store.go: the four calls of a live migration, two on the destination
-- and two on the source.
use cirrus_sim.Base.Exec.{◌>>=◌, ◌>>◌, raise_if, modify, pure}
use cirrus_sim.Base.{Bool, String, true, false, not, ◌==◌, string_eq, is_some}
use cirrus_sim.Libvirt.Store.{get_host, domain_on, put_domain, put_host, take_domain_id}
use cirrus_sim.Libvirt.Types.{
  Domain, MigrationState, minus_one, paused, prepared, Time, Action, performing, idle,
  operation_invalid, host_online, running, migration_in_progress, operation_denied,
}
use cirrus_sim.Floats.{Ratios}
use cirrus_sim.Libvirt.Domains.{is_running, uuid_string}
use cirrus_sim.Base.Dict.{erase, lookup}
use cirrus_sim.Libvirt.Hosts.{lacks_vcpus, lacks_memory}

unfoldable pub is_idle : MigrationState → Bool
is_idle idle = true
is_idle _ = false

unfoldable pub is_prepared : MigrationState → Bool
is_prepared prepared = true
is_prepared _ = false

unfoldable pub is_performing : MigrationState → Bool
is_performing performing = true
is_performing _ = false

-- The domain that `MigratePrepare` puts on the destination; `StartedAt` is left at its zero value.
unfoldable pub placeholder : Domain → Domain
placeholder d = record {
  name = d.name;
  uuid = d.uuid;
  id = minus_one;
  state = paused;
  vcpus = d.vcpus;
  memory_kib = d.memory_kib;
  xml = d.xml;
  created_at = d.created_at;
  started_at = 0;
  interface_ids = d.interface_ids;
  migration_state = prepared;
  migration_cookie = uuid_string d.uuid;
}

module _ {R : Type 0} where
  unfoldable pub migrate_perform : String → String → Action R (Unit {0})
  unfolding get_host domain_on put_domain is_running is_idle
  migrate_perform src_host_id uuid = do
    h ← get_host src_host_id
    d ← domain_on h uuid
    raise_if (not (is_running d.state)) operation_invalid
    raise_if (not (is_idle d.migration_state)) migration_in_progress
    modify (
        put_domain src_host_id h uuid
          (record d { migration_state = performing; migration_cookie = uuid }))

  unfoldable pub migrate_finish : String → String → Time → Action R Domain
  unfolding get_host domain_on put_domain is_prepared take_domain_id
  migrate_finish dest_host_id uuid now = do
    h ← get_host dest_host_id
    d ← domain_on h uuid
    raise_if (not (is_prepared d.migration_state)) operation_invalid
    id ← take_domain_id
    let d' = record d {
      state = running;
      id = id;
      started_at = now;
      migration_state = idle;
      migration_cookie = "";
    }
    modify (put_domain dest_host_id h uuid d')
    pure d'

  unfoldable pub migrate_confirm : String → String → Action R (Unit {0})
  unfolding get_host domain_on put_host is_performing
  migrate_confirm src_host_id uuid = do
    h ← get_host src_host_id
    d ← domain_on h uuid
    raise_if (not (is_performing d.migration_state)) operation_invalid
    modify (put_host src_host_id (record h { domains = erase uuid h.domains }))

module _ (F : Ratios) where
  open F use {Ratio}

  unfoldable pub migrate_prepare : String → Domain → Action Ratio (Unit {0})
  unfolding get_host put_domain placeholder
  migrate_prepare dest_host_id d = do
    h ← get_host dest_host_id
    raise_if (not (h.state == host_online)) operation_denied
    raise_if (is_some (lookup (uuid_string d.uuid) h.domains)) operation_invalid
    raise_if (lacks_vcpus F h d) operation_denied
    raise_if (lacks_memory F h d) operation_denied
    modify (put_domain dest_host_id h (uuid_string d.uuid) (placeholder d))
