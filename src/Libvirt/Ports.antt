-- ===== src/Libvirt/Ports.antt =====
-- Hosts and ports of libvirt-sim/internal/state/store.go: the map of hosts and the map of ports.
use cirrus_sim.Base.{
  ℕ, ◌≡◌, String, some, none, string_eq, arith, nat_eq, str_iff, Bool-cases, ◌==◌, inl, inr,
}
use cirrus_sim.Libvirt.Store.{put_host}
use cirrus_sim.Libvirt.Types.{Store, Host}
use cirrus_sim.Base.Dict.{
  IsMap, lookup, insert, insert-IsMap, erase, erase-IsMap, lookup-insert, lookup-erase,
}

-- A host's port is its own, and a port that is taken belongs to a host that is there.
pub record IsPorted {R : Type 0} (s : Store R) : Type 0 where
  pub host_map : IsMap s.hosts
  pub port_map : IsMap s.ports
  pub to_port :
      (id : String) (h : Host R)
      → lookup id s.hosts ≡ some h
      → lookup h.libvirt_port s.ports ≡ some id
  pub to_host :
      (p : ℕ) (id : String)
      → lookup p s.ports ≡ some id
      → (h : Host R) × (lookup id s.hosts ≡ some h) × (h.libvirt_port ≡ p)

module _ {R : Type 0} where
  -- a host that is rewritten at its port
  pub put_host-IsPorted :
      (id : String) (h h' : Host R) (s : Store R)
      → IsPorted s
      → lookup id s.hosts ≡ some h
      → h'.libvirt_port ≡ h.libvirt_port
      → IsPorted (put_host id h' s)
  unfolding put_host
  put_host-IsPorted id h h' s c eh ep = record {
    host_map = insert-IsMap id h' s.hosts c.host_map;
    port_map = c.port_map;
    to_port = λ k x ex.
        ground (arith, lookup-insert id k h' s.hosts, str_iff id k, c.to_port k x, c.to_port id h);
    to_host = λ p k ek.
        let (x, ex, px) = c.to_host p k ek in
        elim (Bool-cases (id == k)) [
          | inl same ↦
              (h', ground (arith, lookup-insert id k h' s.hosts), ground (arith, str_iff id k))
          | inr other ↦ (x, ground (arith, lookup-insert id k h' s.hosts), px)
        ];
  }

  pub add-IsPorted :
      (h h' : Host R) (id : String) (s : Store R)
      → IsPorted s
      → lookup id s.hosts ≡ none
      → lookup h.libvirt_port s.ports ≡ none
      → h'.libvirt_port ≡ h.libvirt_port
      → let t = put_host id h' s in IsPorted (record t { ports = insert h.libvirt_port id t.ports })
  unfolding put_host
  add-IsPorted h h' id s c fresh free ep = record {
    host_map = insert-IsMap id h' s.hosts c.host_map;
    port_map = insert-IsMap h.libvirt_port id s.ports c.port_map;
    to_port = λ k x ex. ground (
      arith,
      lookup-insert id k h' s.hosts,
      lookup-insert h.libvirt_port x.libvirt_port id s.ports,
      str_iff id k,
      c.to_port k x,
    );
    to_host = λ p k ek. elim (Bool-cases (h.libvirt_port == p)) [
      | inl same ↦ (
        h',
        ground (
          arith,
          lookup-insert h.libvirt_port p id s.ports,
          lookup-insert id k h' s.hosts,
          str_iff id k,
        ),
        ground arith,
      )
      | inr other ↦
          let (x, ex, px) =
            c.to_host p k (ground (arith, lookup-insert h.libvirt_port p id s.ports)) in
          (x, ground (arith, lookup-insert id k h' s.hosts, str_iff id k), px)
    ];
  }

  pub remove-IsPorted :
      (h : Host R) (id : String) (s : Store R)
      → IsPorted s
      → lookup id s.hosts ≡ some h
      → IsPorted (record s { ports = erase h.libvirt_port s.ports; hosts = erase id s.hosts })
  remove-IsPorted h id s c eh = record {
    host_map = erase-IsMap id s.hosts c.host_map;
    port_map = erase-IsMap h.libvirt_port s.ports c.port_map;
    to_port = λ k x ex. ground (
      arith,
      lookup-erase id k s.hosts c.host_map,
      lookup-erase h.libvirt_port x.libvirt_port s.ports c.port_map,
      str_iff id k,
      c.to_port k x,
      c.to_port id h,
    );
    to_host = λ p k ek.
        let (x, ex, px) =
          c.to_host p k (ground (arith, lookup-erase h.libvirt_port p s.ports c.port_map)) in
        (
          x,
          ground (
            arith,
            lookup-erase id k s.hosts c.host_map,
            lookup-erase h.libvirt_port p s.ports c.port_map,
            str_iff id k,
          ),
          px,
        );
  }
