-- ===== src/Libvirt/Runs.antt =====
-- Any calls of libvirt-sim/internal/state/store.go, one after the other.
use cirrus_sim.Libvirt.Store
use cirrus_sim.Libvirt.Migration
use cirrus_sim.Base.{
  [], ◌∷◌, ℕ, ◌≡◌, refl, String, List, Option-cases, Bool-cases, is_some, ◌⊎◌, ◌||◌, inl, arith,
  some, inr, string_eq, nat_eq,
}
use cirrus_sim.Libvirt.Types.{Host, MigrationConfig, Time, Store, Domain, host_not_found}
use cirrus_sim.Floats.{Ratios}
use cirrus_sim.Libvirt.Ports.{IsPorted, remove-IsPorted, add-IsPorted}
use cirrus_sim.Base.Dict.{lookup-empty, lookup, erase, insert}
use cirrus_sim.Libvirt.Touches.{
  IsPorted-of, Touches-IsPorted, define_domain-Touches, start_domain-Touches, with_domain-Touches,
  undefine_domain-Touches, migrate_prepare-Touches, migrate_perform-Touches, migrate_finish-Touches,
  migrate_confirm-Touches,
}
use cirrus_sim.Base.Exec.{err, ok}
use cirrus_sim.Libvirt.Domains.{destroy, shut_down, suspend, resume}
use cirrus_sim.Libvirt.Store.{put_host}

-- The calls that change the store.
pub data Call (R : Type 0) : Type 0 where
  add_host_call : Host R → Call R
  remove_host_call : String → Call R
  reset_call : Call R
  set_migration_config_call : MigrationConfig → Call R
  set_migration_speed_call : ℕ → Call R
  define_domain_call : String → Domain → Call R
  start_domain_call : String → String → Call R
  destroy_domain_call : String → String → Call R
  shutdown_domain_call : String → String → Call R
  suspend_domain_call : String → String → Call R
  resume_domain_call : String → String → Call R
  undefine_domain_call : String → String → Call R
  migrate_prepare_call : String → Domain → Call R
  migrate_perform_call : String → String → Call R
  migrate_finish_call : String → String → Call R
  migrate_confirm_call : String → String → Call R

module _ {R : Type 0} where
  remove_host-IsPorted :
      (id : String) (s : Store R) → IsPorted s → IsPorted (Store.remove_host id s).1
  unfolding Store.remove_host
  remove_host-IsPorted id s c = elim (Option-cases (lookup id s.hosts)) [
    | inl missing ↦ let e : (Store.remove_host id s).1 ≡ s = ground arith in rw e c
    | inr (h, eh) ↦
        let e : (Store.remove_host id s).1
            ≡ record s { ports = erase h.libvirt_port s.ports; hosts = erase id s.hosts } =
          ground arith in
        rw e (remove-IsPorted h id s c eh)
  ]

  new_store-IsPorted : IsPorted (Store.new_store {R = R})
  new_store-IsPorted = record {
    host_map = tt;
    port_map = tt;
    to_port = λ id h e. cc (lookup-empty {V = Host R} id);
    to_host = λ p id e. absurd (cc (lookup-empty {V = String} p));
  }

module _ (F : Ratios) where
  open F use {Ratio}

  add_host-IsPorted :
      (h : Host Ratio) (s : Store Ratio) → IsPorted s → IsPorted (Store.add_host F h s).1
  unfolding Store.add_host
  add_host-IsPorted h s c =
      elim (Bool-cases
        (is_some (lookup h.host_id s.hosts) || is_some (lookup h.libvirt_port s.ports))) [
          | inl taken ↦ let e : (Store.add_host F h s).1 ≡ s = ground arith in rw e c
          | inr free ↦
              let h' = Store.with_defaults F h in
              let t = put_host h.host_id h' s in
              let e : (Store.add_host F h s).1
                  ≡ record t { ports = insert h.libvirt_port h.host_id t.ports } =
                ground arith in
              rw e (
                add-IsPorted h h' h.host_id s c (ground arith) (ground arith)
                  (unfold Store.with_defaults in refl))
        ]

  pub serve : Time → Call Ratio → Store Ratio → Store Ratio
  serve now (add_host_call h) s = (Store.add_host F h s).1
  serve now (remove_host_call id) s = (Store.remove_host id s).1
  serve now reset_call s = Store.reset s
  serve now (set_migration_config_call cfg) s = Store.set_migration_config cfg s
  serve now (set_migration_speed_call speed) s = Store.set_migration_speed speed s
  serve now (define_domain_call host d) s = (Store.define_domain host d now s).1
  serve now (start_domain_call host uuid) s = (Store.start_domain F host uuid now s).1
  serve now (destroy_domain_call host uuid) s = (Store.destroy_domain host uuid s).1
  serve now (shutdown_domain_call host uuid) s = (Store.shutdown_domain host uuid s).1
  serve now (suspend_domain_call host uuid) s = (Store.suspend_domain host uuid s).1
  serve now (resume_domain_call host uuid) s = (Store.resume_domain host uuid s).1
  serve now (undefine_domain_call host uuid) s = (Store.undefine_domain host uuid s).1
  serve now (migrate_prepare_call host d) s = (Migration.migrate_prepare F host d s).1
  serve now (migrate_perform_call host uuid) s = (Migration.migrate_perform host uuid s).1
  serve now (migrate_finish_call host uuid) s = (Migration.migrate_finish host uuid now s).1
  serve now (migrate_confirm_call host uuid) s = (Migration.migrate_confirm host uuid s).1

  serve-IsPorted :
      (now : Time) (c : Call Ratio) (s : Store Ratio) → IsPorted s → IsPorted (serve now c s)
  unfolding serve
  serve-IsPorted now (add_host_call h) s p = add_host-IsPorted h s p
  serve-IsPorted now (remove_host_call id) s p = remove_host-IsPorted id s p
  serve-IsPorted now reset_call s p =
      unfold Store.reset in IsPorted-of Store.new_store _ refl refl new_store-IsPorted
  serve-IsPorted now (set_migration_config_call cfg) s p =
      unfold Store.set_migration_config in IsPorted-of s _ refl refl p
  serve-IsPorted now (set_migration_speed_call speed) s p =
      unfold Store.set_migration_speed in IsPorted-of s _ refl refl p
  serve-IsPorted now (define_domain_call host d) s p =
      Touches-IsPorted s _ (define_domain-Touches host d now s) p
  serve-IsPorted now (start_domain_call host uuid) s p =
      Touches-IsPorted s _ (start_domain-Touches F host uuid now s) p
  serve-IsPorted now (destroy_domain_call host uuid) s p =
      unfold Store.destroy_domain in
      Touches-IsPorted s _ (with_domain-Touches destroy host uuid s) p
  serve-IsPorted now (shutdown_domain_call host uuid) s p =
      unfold Store.shutdown_domain in
      Touches-IsPorted s _ (with_domain-Touches shut_down host uuid s) p
  serve-IsPorted now (suspend_domain_call host uuid) s p =
      unfold Store.suspend_domain in
      Touches-IsPorted s _ (with_domain-Touches suspend host uuid s) p
  serve-IsPorted now (resume_domain_call host uuid) s p =
      unfold Store.resume_domain in Touches-IsPorted s _ (with_domain-Touches resume host uuid s) p
  serve-IsPorted now (undefine_domain_call host uuid) s p =
      Touches-IsPorted s _ (undefine_domain-Touches host uuid s) p
  serve-IsPorted now (migrate_prepare_call host d) s p =
      Touches-IsPorted s _ (migrate_prepare-Touches F host d s) p
  serve-IsPorted now (migrate_perform_call host uuid) s p =
      Touches-IsPorted s _ (migrate_perform-Touches host uuid s) p
  serve-IsPorted now (migrate_finish_call host uuid) s p =
      Touches-IsPorted s _ (migrate_finish-Touches host uuid now s) p
  serve-IsPorted now (migrate_confirm_call host uuid) s p =
      Touches-IsPorted s _ (migrate_confirm-Touches host uuid s) p

  -- the calls, each with the time at which it is made
  pub serve_all : List (Time × Call Ratio) → Store Ratio → Store Ratio
  serve_all [] s = s
  serve_all ((now, c) ∷ cs) s = serve_all cs (serve now c s)

  serve_all-IsPorted :
      (cs : List (Time × Call Ratio)) (s : Store Ratio) → IsPorted s → IsPorted (serve_all cs s)
  unfolding serve_all
  serve_all-IsPorted [] s p = p
  serve_all-IsPorted ((now, c) ∷ cs) s p =
      serve_all-IsPorted cs (serve now c s) (serve-IsPorted now c s p)

  -- After any calls on a new store, looking a port up either returns an error or returns a host that
  -- is there and listens on that port, never a nil pointer; and every host is found at its own port.
  pub get_host_by_port-serve_all :
      (cs : List (Time × Call Ratio)) (port : ℕ)
      → let s = serve_all cs Store.new_store in
        ((Store.get_host_by_port port s ≡ (err host_not_found, s))
          ⊎ ((h : Host Ratio) × (Store.get_host_by_port port s ≡ (ok (some h), s))
              × (h.libvirt_port ≡ port)))
        × ((id : String) (h : Host Ratio)
            → lookup id s.hosts ≡ some h
            → Store.get_host_by_port h.libvirt_port s ≡ (ok (some h), s))
  unfolding Store.get_host_by_port
  get_host_by_port-serve_all cs port =
      let s = serve_all cs Store.new_store in
      let p : IsPorted s = serve_all-IsPorted cs Store.new_store new_store-IsPorted in
      (
        elim (Option-cases (lookup port s.ports)) [
          | inl missing ↦ inl (ground arith)
          | inr (id, e) ↦ let (h, eh, ep) = p.to_host port id e in inr (h, ground arith, ep)
        ],
        λ id h e. ground (arith, p.to_port id h e),
      )
