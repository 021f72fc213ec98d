-- ===== src/Libvirt/Touches.antt =====
-- What the operations on domains in libvirt-sim/internal/state/store.go write to: a host, and not its
-- port or the map of ports.
use cirrus_sim.Base.{
  ◌≡◌, refl, String, inl, ◌⊎◌, Option-cases, arith, none, inr, Bool-cases, some, string_eq, ◌==◌,
  ◌&&◌, not, is_some,
}
use cirrus_sim.Libvirt.Store.{undefine_domain, define_domain, put_host, with_domain, start_domain}
use cirrus_sim.Libvirt.Types.{Store, Time, Error, Domain, Host, shutoff, minus_one, host_online}
use cirrus_sim.Libvirt.Migration.{
  migrate_perform, migrate_finish, migrate_confirm, migrate_prepare, is_performing, is_prepared,
  is_idle, placeholder,
}
use cirrus_sim.Floats.{Ratios}
use cirrus_sim.Base.Exec.{Result, err, ok}
use cirrus_sim.Base.Dict.{lookup, insert, erase}
use cirrus_sim.Libvirt.Ports.{IsPorted, put_host-IsPorted}
use cirrus_sim.Libvirt.Domains.{is_shutoff, is_running, uuid_string}
use cirrus_sim.Libvirt.LiveMigration.{arrived, sending}
use cirrus_sim.Libvirt.Hosts.{lacks_vcpus, lacks_memory}
use cirrus_sim.Libvirt.Capacity.{started}

abbrev pub Touches : {R : Type 0} → Store R → Store R → Type 0
Touches {R} s s' =
    ((s'.hosts ≡ s.hosts) × (s'.ports ≡ s.ports))
    ⊎ ((id : String) × (h : Host R) × (h' : Host R) × (lookup id s.hosts ≡ some h)
        × (h'.libvirt_port ≡ h.libvirt_port)
        × (s'.hosts ≡ insert id h' s.hosts)
        × (s'.ports ≡ s.ports))

Result-cases : (r : Result Error Domain) → ((e : Error) × (r ≡ err e)) ⊎ ((d : Domain) × (r ≡ ok d))
Result-cases (ok d) = inr (d, refl)
Result-cases (err e) = inl (e, refl)

module _ {R : Type 0} where
  pub IsPorted-of :
      (s s' : Store R) → s'.hosts ≡ s.hosts → s'.ports ≡ s.ports → IsPorted s → IsPorted s'
  IsPorted-of s s' eh ep c = record {
    host_map = rw eh c.host_map;
    port_map = rw ep c.port_map;
    to_port = rw (eh, ep) c.to_port;
    to_host = rw (eh, ep) c.to_host;
  }

  pub Touches-IsPorted : (s s' : Store R) → Touches s s' → IsPorted s → IsPorted s'
  unfolding put_host
  Touches-IsPorted s s' (inl (eh, ep)) c = IsPorted-of s s' eh ep c
  Touches-IsPorted s s' (inr (id, h, h', el, port, eh, ep)) c =
      IsPorted-of (put_host id h' s) s' eh ep (put_host-IsPorted id h h' s c el port)

  pub define_domain-Touches :
      (host_id : String) (d : Domain) (now : Time) (s : Store R)
      → Touches s (define_domain host_id d now s).1
  unfolding define_domain
  define_domain-Touches host_id d now s = elim (Option-cases (lookup host_id s.hosts)) [
    | inl missing ↦ inl (ground arith, ground arith)
    | inr (h, e) ↦
        let d' : Domain = record d { state = shutoff; id = minus_one; created_at = now } in
        inr (
          host_id,
          h,
          record h { domains = insert (uuid_string d.uuid) d' h.domains },
          e,
          refl,
          ground arith,
          ground arith,
        )
  ]

  -- a domain on a host, looked up or not there
  on_domain :
      (host_id uuid : String) (s s' : Store R)
      → (lookup host_id s.hosts ≡ none → Touches s s')
      → ((h : Host R)
          → lookup host_id s.hosts ≡ some h
          → lookup uuid h.domains ≡ none
          → Touches s s')
      → ((h : Host R) (d : Domain)
          → lookup host_id s.hosts ≡ some h
          → lookup uuid h.domains ≡ some d
          → Touches s s')
      → Touches s s'
  on_domain host_id uuid s s' f g k = elim (Option-cases (lookup host_id s.hosts)) [
    | inl missing ↦ f missing
    | inr (h, eh) ↦ elim (Option-cases (lookup uuid h.domains)) [
      | inl missing ↦ g h eh missing
      | inr (d, ed) ↦ k h d eh ed
    ]
  ]

  pub with_domain-Touches :
      (f : Domain → Result Error Domain) (host_id uuid : String) (s : Store R)
      → Touches s (with_domain f host_id uuid s).1
  unfolding with_domain
  with_domain-Touches f host_id uuid s =
      on_domain host_id uuid s (with_domain f host_id uuid s).1
        (λ e. inl (ground arith, ground arith)) (λ h eh e. inl (ground arith, ground arith))
        λ h d eh ed. elim (Result-cases (f d)) [
          | inl (e, er) ↦ inl (ground arith, ground arith)
          | inr (d', er) ↦ inr (
            host_id,
            h,
            record h { domains = insert uuid d' h.domains },
            eh,
            refl,
            ground arith,
            ground arith,
          )
        ]

  pub undefine_domain-Touches :
      (host_id uuid : String) (s : Store R) → Touches s (undefine_domain host_id uuid s).1
  unfolding undefine_domain
  undefine_domain-Touches host_id uuid s =
      on_domain host_id uuid s (undefine_domain host_id uuid s).1
        (λ e. inl (ground arith, ground arith)) (λ h eh e. inl (ground arith, ground arith))
        λ h d eh ed. elim (Bool-cases (is_shutoff d.state)) [
          | inl off ↦ inr (
            host_id,
            h,
            record h { domains = erase uuid h.domains },
            eh,
            refl,
            ground arith,
            ground arith,
          )
          | inr on ↦ inl (ground arith, ground arith)
        ]

  pub migrate_perform-Touches :
      (host_id uuid : String) (s : Store R) → Touches s (migrate_perform host_id uuid s).1
  unfolding migrate_perform
  migrate_perform-Touches host_id uuid s =
      on_domain host_id uuid s (migrate_perform host_id uuid s).1
        (λ e. inl (ground arith, ground arith)) (λ h eh e. inl (ground arith, ground arith))
        λ h d eh ed. elim (Bool-cases (is_running d.state && is_idle d.migration_state)) [
          | inl yes' ↦ inr (
            host_id,
            h,
            record h { domains = insert uuid (sending uuid d) h.domains },
            eh,
            refl,
            ground arith,
            ground arith,
          )
          | inr no' ↦ inl (ground arith, ground arith)
        ]

  pub migrate_finish-Touches :
      (host_id uuid : String) (now : Time) (s : Store R)
      → Touches s (migrate_finish host_id uuid now s).1
  unfolding migrate_finish
  migrate_finish-Touches host_id uuid now s =
      on_domain host_id uuid s (migrate_finish host_id uuid now s).1
        (λ e. inl (ground arith, ground arith)) (λ h eh e. inl (ground arith, ground arith))
        λ h d eh ed. elim (Bool-cases (is_prepared d.migration_state)) [
          | inl yes' ↦ inr (
            host_id,
            h,
            record h { domains = insert uuid (arrived s.next_domain_id now d) h.domains },
            eh,
            refl,
            ground arith,
            ground arith,
          )
          | inr no' ↦ inl (ground arith, ground arith)
        ]

  pub migrate_confirm-Touches :
      (host_id uuid : String) (s : Store R) → Touches s (migrate_confirm host_id uuid s).1
  unfolding migrate_confirm
  migrate_confirm-Touches host_id uuid s =
      on_domain host_id uuid s (migrate_confirm host_id uuid s).1
        (λ e. inl (ground arith, ground arith)) (λ h eh e. inl (ground arith, ground arith))
        λ h d eh ed. elim (Bool-cases (is_performing d.migration_state)) [
          | inl yes' ↦ inr (
            host_id,
            h,
            record h { domains = erase uuid h.domains },
            eh,
            refl,
            ground arith,
            ground arith,
          )
          | inr no' ↦ inl (ground arith, ground arith)
        ]

module _ (F : Ratios) where
  open F use {Ratio}

  pub migrate_prepare-Touches :
      (dest : String) (d : Domain) (s : Store Ratio) → Touches s (migrate_prepare F dest d s).1
  unfolding migrate_prepare
  migrate_prepare-Touches dest d s = elim (Option-cases (lookup dest s.hosts)) [
    | inl missing ↦ inl (ground arith, ground arith)
    | inr (h, eh) ↦
        elim (Bool-cases (
          h.state == host_online
          && not (is_some (lookup (uuid_string d.uuid) h.domains))
          && not (lacks_vcpus F h d)
          && not (lacks_memory F h d))) [
            | inl yes' ↦ inr (
              dest,
              h,
              record h { domains = insert (uuid_string d.uuid) (placeholder d) h.domains },
              eh,
              refl,
              ground arith,
              ground arith,
            )
            | inr no' ↦ inl (ground arith, ground arith)
          ]
  ]

  pub start_domain-Touches :
      (host_id uuid : String) (now : Time) (s : Store Ratio)
      → Touches s (start_domain F host_id uuid now s).1
  unfolding start_domain
  start_domain-Touches host_id uuid now s =
      on_domain host_id uuid s (start_domain F host_id uuid now s).1
        (λ e. inl (ground arith, ground arith)) (λ h eh e. inl (ground arith, ground arith))
        λ h d eh ed.
          elim (Bool-cases
            (is_shutoff d.state && not (lacks_vcpus F h d) && not (lacks_memory F h d))) [
              | inl yes' ↦ inr (
                host_id,
                h,
                record h { domains = insert uuid (started F s.next_domain_id now d) h.domains },
                eh,
                refl,
                ground arith,
                ground arith,
              )
              | inr no' ↦ inl (ground arith, ground arith)
            ]
