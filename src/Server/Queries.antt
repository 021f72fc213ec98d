-- ===== src/Server/Queries.antt =====
-- libvirt-sim/internal/rpc/handlers.go: the handlers that only read the store.
use cirrus_sim.Base.{ℕ, if◌then◌else◌, ◌%◌, ltb, String, ◌∷◌, List, [], ◌+◌, length}
use cirrus_sim.Rpc.Encoder.{
  write_int32, XdrEncoder, write_uint32, write_int64, write_string, write_uint64, write_uint8,
  new_encoder, fit, write_uint16,
}
use cirrus_sim.Libvirt.Types.{
  crashed, pm_suspended, DomainState, Int32, no_state, Host, running, Domain, blocked, paused,
  shutdown, shutoff,
}
use cirrus_sim.Server.Types.{Externals, Session, Serve, vir_err_internal_error, vir_err_no_domain}
use cirrus_sim.Rpc.Words.{Bytes}
use cirrus_sim.Server.Parts.{reading, store_call, read_domain_ref, always, domain_reply}
use cirrus_sim.Libvirt.Hosts.{total_vcpus, available_memory_mb, used_vcpus, used_memory_mb}
use cirrus_sim.Server.Events.{encode_domain_ref}
use cirrus_sim.Rpc.Decoder.{read_string, read_uuid}
use cirrus_sim.Base.Int64.{mul64, sub64, slt}
use cirrus_sim.Libvirt.Store.{get_host, list_domains, get_domain, get_domain_by_name}
use cirrus_sim.Base.Exec.{◌>>=◌, pure}
use cirrus_sim.Libvirt.Domains.{uuid_string}

-- the number of a state on the wire
unfoldable pub state_number : DomainState → Int32
state_number no_state = 0
state_number running = 1
state_number blocked = 2
state_number paused = 3
state_number shutdown = 4
state_number shutoff = 5
state_number crashed = 6
state_number pm_suspended = 7

-- `int32(int8(b))`: the sign of a byte is carried on
unfoldable pub sign_extend : ℕ → Int32
sign_extend b = if ltb b 128 then b else b + 0xffffff00

-- the loop over the bytes of the model
unfoldable pub write_chars : Bytes → XdrEncoder → XdrEncoder
write_chars [] e = e
write_chars (b ∷ bs) e = write_chars bs (write_int32 (sign_extend b) e)

-- `uint32(n)` of an `int`
abbrev pub to_uint32 : ℕ → Int32
to_uint32 n = n % 0x100000000

module _ (X : Externals) (h : Session) where
  open X use {ratios, bytes, text, capabilities}
  open ratios use {Ratio}

  -- a name and a value of the statistics
  unfoldable pub write_stat : String → ℕ → XdrEncoder → XdrEncoder
  write_stat name value e = write_uint64 value (write_string (bytes name) e)

  unfoldable pub handle_auth_list : Bytes
  handle_auth_list = (write_uint32 0 (write_uint32 1 new_encoder)).buf

  unfoldable pub handle_get_lib_version : Bytes
  handle_get_lib_version = (write_uint64 9000000 new_encoder).buf

  unfoldable pub handle_get_version : Bytes
  handle_get_version = (write_int64 9000000 new_encoder).buf

  unfoldable pub handle_get_hostname : Bytes
  handle_get_hostname = (write_string (bytes h.host_id) new_encoder).buf

  -- `h.store.GetHost(h.hostID)`, with the reply of its callers
  unfoldable pub session_host : Serve Ratio (Host Ratio)
  session_host = store_call (always vir_err_internal_error) (get_host h.host_id)

  unfoldable pub handle_get_capabilities : Serve Ratio Bytes
  handle_get_capabilities = do
    host ← session_host
    pure
        (write_string (capabilities host.cpu_model (mul64 host.memory_mb 1024) (total_vcpus host))
          new_encoder).buf

  unfoldable pub handle_node_get_info : Serve Ratio Bytes
  handle_node_get_info = do
    host ← session_host
    let named = write_chars (fit 32 (bytes host.cpu_model)) new_encoder
    let sized =
        write_uint32 (to_uint32 (total_vcpus host)) (write_uint64 (mul64 host.memory_mb 1024) named)
    let clocked = write_uint32 1 (write_uint32 2100 sized)
    pure
        (write_uint32 (to_uint32 host.threads_per_core) (
          write_uint32 (to_uint32 host.cores_per_socket)
            (write_uint32 (to_uint32 host.cpu_sockets) clocked))).buf

  unfoldable pub handle_domain_get_state : Bytes → Serve Ratio Bytes
  handle_domain_get_state body = do
    d ← read_domain_ref h body
    pure (write_int32 0 (write_int32 (state_number d.state) new_encoder)).buf

  unfoldable pub handle_domain_get_info : Bytes → Serve Ratio Bytes
  handle_domain_get_info body = do
    d ← read_domain_ref h body
    pure
        (write_uint64 0 (
          write_uint16 (d.vcpus % 0x10000) (
            write_uint64 d.memory_kib
              (write_uint64 d.memory_kib (write_uint8 (state_number d.state) new_encoder))))).buf

  unfoldable pub handle_domain_get_xml_desc : Bytes → Serve Ratio Bytes
  handle_domain_get_xml_desc body = do
    d ← read_domain_ref h body
    pure (write_string (bytes d.xml) new_encoder).buf

  unfoldable pub handle_lookup_by_uuid : Bytes → Serve Ratio Bytes
  handle_lookup_by_uuid body = do
    uuid ← reading vir_err_internal_error read_uuid body
    d ← store_call (always vir_err_no_domain) (get_domain h.host_id (uuid_string uuid))
    pure (domain_reply X d)

  unfoldable pub handle_lookup_by_name : Bytes → Serve Ratio Bytes
  handle_lookup_by_name body = do
    name ← reading vir_err_internal_error read_string body
    d ← store_call (always vir_err_no_domain) (get_domain_by_name h.host_id (text name))
    pure (domain_reply X d)

  -- the loop over the domains
  unfoldable pub write_references : List Domain → XdrEncoder → XdrEncoder
  write_references [] e = e
  write_references (d ∷ ds) e = write_references ds (encode_domain_ref X d e)

  -- `h.store.ListDomains(h.hostID)`, with the reply of its callers
  unfoldable pub session_domains : Serve Ratio (List Domain)
  session_domains = store_call (always vir_err_internal_error) (list_domains h.host_id)

  unfoldable pub handle_list_all_domains : Serve Ratio Bytes
  handle_list_all_domains = do
    ds ← session_domains
    let n = to_uint32 (length ds)
    pure (write_int32 n (write_references ds (write_uint32 n new_encoder))).buf

  -- the loop of `handleGetAllDomainStats`
  unfoldable pub write_domain_stats : List Domain → XdrEncoder → XdrEncoder
  write_domain_stats [] e = e
  write_domain_stats (d ∷ ds) e = write_domain_stats ds (write_int32 0 (encode_domain_ref X d e))

  unfoldable pub handle_get_all_domain_stats : Serve Ratio Bytes
  handle_get_all_domain_stats = do
    ds ← session_domains
    pure (write_domain_stats ds (write_uint32 (to_uint32 (length ds)) new_encoder)).buf

  -- the bytes that are free, none where more is used than there is
  unfoldable pub free_memory : Host Ratio → ℕ
  free_memory host =
      let kib = mul64 (sub64 (available_memory_mb ratios host) (used_memory_mb host)) 1024 in
      mul64 (if slt kib 0 then 0 else kib) 1024

  unfoldable pub handle_node_get_free_memory : Serve Ratio Bytes
  handle_node_get_free_memory = do
    host ← session_host
    pure (write_uint64 (free_memory host) new_encoder).buf

  -- the two figures of `handleNodeGetCPUStats`, in nanoseconds
  unfoldable pub user_time : Host Ratio → ℕ
  user_time host = mul64 (used_vcpus host) 1000000000

  unfoldable pub idle_time : Host Ratio → ℕ
  idle_time host = mul64 (sub64 (total_vcpus host) (used_vcpus host)) 1000000000

  unfoldable pub handle_node_get_cpu_stats : Serve Ratio Bytes
  handle_node_get_cpu_stats = do
    host ← session_host
    let busy =
        write_stat "user" (user_time host) (write_stat "kernel" 0 (write_uint32 4 new_encoder))
    pure (write_int32 4 (write_stat "iowait" 0 (write_stat "idle" (idle_time host) busy))).buf

  -- the figures of `handleNodeGetMemoryStats`, in KiB
  unfoldable pub total_memory_kb : Host Ratio → ℕ
  total_memory_kb host = mul64 host.memory_mb 1024

  unfoldable pub free_memory_kb : Host Ratio → ℕ
  free_memory_kb host = sub64 (total_memory_kb host) (mul64 (used_memory_mb host) 1024)

  unfoldable pub handle_node_get_memory_stats : Serve Ratio Bytes
  handle_node_get_memory_stats = do
    host ← session_host
    let sizes =
        write_stat "free" (free_memory_kb host)
          (write_stat "total" (total_memory_kb host) (write_uint32 4 new_encoder))
    pure (write_int32 4 (write_stat "cached" 0 (write_stat "buffers" 0 sizes))).buf
