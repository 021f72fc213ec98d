-- ===== src/Libvirt/LiveMigration.antt =====
-- The four migration calls of libvirt-sim/internal/state/store.go, made one after the other.
use cirrus_sim.Base.Exec.{◌>>=◌, ◌>>◌, pure, bind-ok}
use cirrus_sim.Base.Exec.{ok}
use cirrus_sim.Base.{
  ◌+◌, ◌%◌, ◌≡◌, String, some, arith, none, string_eq, str_iff, false, ◌≢◌, sym, ◌∙◌, refl,
}
use cirrus_sim.Libvirt.Types.{
  Int32, Time, Host, Domain, Store, running, performing, idle, prepared, host_online, Action,
}
use cirrus_sim.Floats.{Ratios}
use cirrus_sim.Libvirt.Migration.{
  migrate_confirm, migrate_perform, migrate_finish, migrate_prepare, placeholder,
}
use cirrus_sim.Base.Dict.{
  lookup, erase, insert, lookup-insert_ne, lookup-insert_self, IsMap, lookup-erase_self,
  insert-IsMap,
}
use cirrus_sim.Libvirt.Store.{put_domain, put_host}
use cirrus_sim.Libvirt.Domains.{uuid_string}
use cirrus_sim.Libvirt.Hosts.{lacks_vcpus, lacks_memory}

-- The domain while the source sends it, and as the destination runs it in the end.
abbrev pub sending : String → Domain → Domain
sending uuid d = record d { migration_state = performing; migration_cookie = uuid }

abbrev pub arrived : Int32 → Time → Domain → Domain
arrived id now d = record d {
  state = running;
  id = id;
  started_at = now;
  migration_state = idle;
  migration_cookie = "";
}

module _ {R : Type 0} where
  migrate_perform-exact :
      (src uuid : String) (h : Host R) (d : Domain) (s : Store R)
      → lookup src s.hosts ≡ some h
      → lookup uuid h.domains ≡ some d
      → d.state ≡ running
      → d.migration_state ≡ idle
      → migrate_perform src uuid s ≡ (ok tt, put_domain src h uuid (sending uuid d) s)
  unfolding migrate_perform
  migrate_perform-exact src uuid h d s eh ed r i = ground arith

  migrate_finish-exact :
      (dest uuid : String) (now : Time) (h : Host R) (d : Domain) (s : Store R)
      → lookup dest s.hosts ≡ some h
      → lookup uuid h.domains ≡ some d
      → d.migration_state ≡ prepared
      → migrate_finish dest uuid now s ≡ (
        ok (arrived s.next_domain_id now d),
        put_domain dest h uuid
            (arrived s.next_domain_id now d)
            (record s { next_domain_id = (s.next_domain_id + 1) % 0x100000000 }),
      )
  unfolding migrate_finish
  migrate_finish-exact dest uuid now h d s eh ed p = ground arith

  migrate_confirm-exact :
      (src uuid : String) (h : Host R) (d : Domain) (s : Store R)
      → lookup src s.hosts ≡ some h
      → lookup uuid h.domains ≡ some d
      → d.migration_state ≡ performing
      → migrate_confirm src uuid s
        ≡ (ok tt, put_host src (record h { domains = erase uuid h.domains }) s)
  unfolding migrate_confirm
  migrate_confirm-exact src uuid h d s eh ed p = ground arith

module _ (F : Ratios) where
  open F use {Ratio}

  -- What `MigratePrepare` asks of the destination.
  pub record CanReceive (dest : String) (h : Host Ratio) (d : Domain) (s : Store Ratio)
      : Type 0 where
    pub host : lookup dest s.hosts ≡ some h
    pub online : h.state ≡ host_online
    pub unknown : lookup (uuid_string d.uuid) h.domains ≡ none
    pub vcpus_fit : lacks_vcpus F h d ≡ false
    pub memory_fits : lacks_memory F h d ≡ false

  migrate_prepare-exact :
      (dest : String) (h : Host Ratio) (d : Domain) (s : Store Ratio)
      → CanReceive dest h d s
      → migrate_prepare F dest d s
        ≡ (ok tt, put_domain dest h (uuid_string d.uuid) (placeholder d) s)
  unfolding migrate_prepare
  migrate_prepare-exact dest h d s k = ground (arith, str_iff h.state host_online)

  -- The calls in the order in which a client makes them.
  abbrev confirm_then : String → Domain → Domain → Action Ratio Domain
  confirm_then src d d' = do migrate_confirm src (uuid_string d.uuid); pure d'

  abbrev finish_then : String → String → Domain → Time → Action Ratio Domain
  finish_then src dest d now = do
    d' ← migrate_finish dest (uuid_string d.uuid) now
    confirm_then src d d'

  abbrev perform_then : String → String → Domain → Time → Action Ratio Domain
  perform_then src dest d now = do
    migrate_perform src (uuid_string d.uuid)
    finish_then src dest d now

  abbrev pub live_migration : String → String → Domain → Time → Action Ratio Domain
  live_migration src dest d now = do migrate_prepare F dest d; perform_then src dest d now

module _ (F : Ratios) (src dest : String) (now : Time) (hs hd : Host (F.Ratio)) (d : Domain)
    (s : Store (F.Ratio)) where
  open F use {Ratio}

  abbrev pub uuid : String
  uuid = uuid_string d.uuid

  -- the hosts after `MigratePrepare` and after `MigratePerform`
  abbrev pub dest_prepared : Host Ratio
  dest_prepared = record hd { domains = insert uuid (placeholder d) hd.domains }

  abbrev pub src_performing : Host Ratio
  src_performing = record hs { domains = insert uuid (sending uuid d) hs.domains }

  -- the stores after each call
  abbrev pub after_prepare : Store Ratio
  after_prepare = put_domain dest hd uuid (placeholder d) s

  abbrev pub after_perform : Store Ratio
  after_perform = put_domain src hs uuid (sending uuid d) after_prepare

  abbrev pub final_domain : Domain
  final_domain = arrived s.next_domain_id now (placeholder d)

  abbrev pub after_finish : Store Ratio
  after_finish =
      put_domain dest dest_prepared uuid final_domain
        (record after_perform { next_domain_id = (s.next_domain_id + 1) % 0x100000000 })

  abbrev pub src_confirmed : Host Ratio
  src_confirmed = record src_performing { domains = erase uuid src_performing.domains }

  abbrev pub after_confirm : Store Ratio
  after_confirm = put_host src src_confirmed after_finish

  live_migration_run :
      src ≢ dest
      → lookup src s.hosts ≡ some hs
      → lookup uuid hs.domains ≡ some d
      → d.state ≡ running
      → d.migration_state ≡ idle
      → CanReceive F dest hd d s
      → live_migration F src dest d now s ≡ (ok final_domain, after_confirm)
  unfolding put_domain placeholder
  live_migration_run ne es ed run quiet k =
      let perform =
        migrate_perform-exact src uuid hs d after_prepare
          (lookup-insert_ne dest src dest_prepared s.hosts (λ e. ne (sym e)) ∙ es) ed run quiet in
      let finish =
        migrate_finish-exact dest uuid now dest_prepared (placeholder d) after_perform
          (lookup-insert_ne src dest src_performing after_prepare.hosts ne
            ∙ lookup-insert_self dest dest_prepared s.hosts)
          (lookup-insert_self uuid (placeholder d) hd.domains) refl in
      let confirm =
        migrate_confirm-exact src uuid src_performing (sending uuid d) after_finish
          (lookup-insert_ne dest src _ after_perform.hosts (λ e. ne (sym e))
            ∙ lookup-insert_self src src_performing after_prepare.hosts)
          (lookup-insert_self uuid (sending uuid d) hs.domains) refl in
      bind-ok (migrate_prepare F dest d) (λ _. perform_then F src dest d now) s
        (migrate_prepare-exact F dest hd d s k)
      ∙ bind-ok (migrate_perform src uuid) (λ _. finish_then F src dest d now) after_prepare perform
      ∙ bind-ok (migrate_finish dest uuid now) (confirm_then F src d) after_perform finish
      ∙ bind-ok (migrate_confirm src uuid) (λ _. pure final_domain) after_finish confirm

  -- Prepare, perform, finish and confirm, in this order and with nothing between, move a running
  -- domain that is not being migrated from its host to another that is online, does not know the
  -- domain and has room: all four calls succeed, the destination then has the domain as the
  -- source had it, but for a new number, the start time, and no migration, the source no longer has it,
  -- and all other hosts are as they were.
  pub live_migration_moves :
      src ≢ dest
      → lookup src s.hosts ≡ some hs
      → lookup uuid hs.domains ≡ some d
      → d.state ≡ running
      → d.migration_state ≡ idle
      → CanReceive F dest hd d s
      → IsMap hs.domains
      → let (r, t) = live_migration F src dest d now s in
        (r ≡ ok (arrived s.next_domain_id now d))
        × ((h : Host Ratio) × (lookup dest t.hosts ≡ some h)
            × (lookup uuid h.domains ≡ some (arrived s.next_domain_id now d)))
        × ((h : Host Ratio) × (lookup src t.hosts ≡ some h) × (lookup uuid h.domains ≡ none))
        × ((id : String) → id ≢ src → id ≢ dest → lookup id t.hosts ≡ lookup id s.hosts)
  unfolding put_domain placeholder
  live_migration_moves ne es ed run quiet k m = rw (live_migration_run ne es ed run quiet k) (
    refl,
    (
      record dest_prepared { domains = insert uuid final_domain dest_prepared.domains },
      lookup-insert_ne src dest src_confirmed after_finish.hosts ne
          ∙ lookup-insert_self dest _ after_perform.hosts,
      lookup-insert_self uuid final_domain dest_prepared.domains,
    ),
    (
      src_confirmed,
      lookup-insert_self src src_confirmed after_finish.hosts,
      lookup-erase_self uuid src_performing.domains (insert-IsMap uuid _ hs.domains m),
    ),
    λ id n1 n2.
        lookup-insert_ne src id src_confirmed after_finish.hosts (λ e. n1 (sym e))
        ∙ lookup-insert_ne dest id _ after_perform.hosts (λ e. n2 (sym e))
        ∙ lookup-insert_ne src id src_performing after_prepare.hosts (λ e. n1 (sym e))
        ∙ lookup-insert_ne dest id dest_prepared s.hosts (λ e. n2 (sym e)),
  )
