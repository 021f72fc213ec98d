-- ===== src/Lib.antt =====
-- cirrus-sim: simulators of the services that a cloud controller talks to. Each simulator keeps its
-- state in memory behind HTTP or RPC handlers; the state packages carry the logic, and they are what
-- is modelled.
--
-- Parts and files.
--   Storage: storage-sim/internal/state/store.go. `Storage.Types` has the records, the constants and
--     the errors; `Storage.Backends`, `Volumes` and `Snapshots` have the methods of the store by what
--     they work on (AddBackend, CreateVolume, CloneFromSnapshot, ...); `Storage.Flatten` and
--     `Storage.Migration` have the calls that start a goroutine and the goroutines runFlatten and
--     runMigration, as threads that take one step for each critical section of the mutex.
--     `Storage.Runs` puts them together: the store, the threads that are under way and the calls that
--     storage-sim/internal/handler/storage.go and storage-sim/internal/sim/management.go make, in any
--     interleaving. `Storage.Requests` and `Storage.Http` are the handlers of storage.go on decoded
--     requests, with their status codes; `Failures` is about them. The other proofs are in
--     `Accounting`, `Consistent`, `Rewrites`, `VolumeLaws`, `VolumeKeeps`, `SnapshotKeeps`,
--     `BackendKeeps`, `JobKeeps`, `Moves`, `Decides` (with `Effects`, the capacity test and the
--     accounts written out for its statements), `JobLaws`, `MigrationLaws`, `MigrationEnds` and
--     `OperationIds`.
--   Libvirt: libvirt-sim/internal/state. `Libvirt.Types` has the records of domain.go, host.go and
--     store.go; `Libvirt.Domains` is domain.go, `Libvirt.Hosts` is host.go, `Libvirt.Store` and
--     `Libvirt.Migration` are store.go. `Libvirt.Runs` has any calls in a row. `Libvirt.DomainXml` is
--     libvirt-sim/internal/xml/domain.go. The proofs are in `Capacity`, `Starts`,
--     `LiveMigration`, `Ports`, `Touches` and `Runs`.
--   Common: common/pkg/eventlog/eventlog.go is `Common.EventLog`, common/pkg/fault/fault.go is
--     `Common.Fault`; the handlers of every simulator record an event and ask for a fault at each
--     call. The proofs are in `Paging` and `FaultLaws`.
--   Ovsdb: ovn-sim/internal/ovsdb. `Ovsdb.Json` has the JSON values; `Ovsdb.Rows`, `Ovsdb.Mutations`
--     and `Ovsdb.Store` are store.go: the conditions of a select, what a mutation does to a row, and
--     the methods of the store; `Ovsdb.Named` and `Ovsdb.Transact` are transact.go, with the loop of
--     Transact as `run_ops`; `Ovsdb.Monitor` is monitor.go, where a notice that is sent is an answer.
--     The proofs are in `Touches`, `Rollback`, `Atomic`, `Results`, `RowLaws`, `SetLaws`, `Notices` and
--     `Registered`.
--   Rpc: libvirt-sim/internal/rpc. `Rpc.Words` has Go's big-endian words and slices, `Rpc.Encoder` and
--     `Rpc.Decoder` are xdr.go, `Rpc.Protocol` is protocol.go. The proofs are in `At`, `RoundTrip`,
--     `Framing`, `Consumed`, `Safety` and `Crashes`.
--   Server: the rest of libvirt-sim/internal/rpc, over Libvirt and Rpc. `Server.Types` has the records and
--     procedures.go, `Server.Events` is events.go; `Server.Parts`, `Server.Domains` and `Server.Queries`
--     are the handlers of handlers.go, and `Server.Migrations` is handlers_migration.go;
--     `Server.Dispatch` is HandleMessage and `Server.Connections` is handleConnection of server.go. The
--     proofs are in `Answers`, `Handlers` and `Replies` (every message is answered), `References`, `Wire`
--     and `Refines` (the lifecycle procedures against the methods of the store), `Keeps` (queries change
--     nothing), `Streams` and `Ends` (the loop), `EventLaws` and `ParamLaws`.
--   Awx: awx-sim/internal/state/store.go. `Awx.Types` has the records and what happens to one job,
--     `Awx.Store` the methods of the store, with one function for each section of LaunchJob under the
--     mutex; `Awx.Jobs` puts them together as steps. The proofs are in `Jobs`, `Runs` and `Finals`.
--   Netbox: netbox-sim/internal/state/store.go. `Netbox.Types` has the records and the slugs,
--     `Netbox.Store` the operations; `climb` is the loop of LocationAncestors. The proofs are in
--     `Ancestors` and `Counts`.
--   Base has what they share: equality tests, lists, `Exec` (a call that returns an error or a value,
--     and leaves a state), `Decides` (the shape of a specification that covers success and failure),
--     `Int64` (Go's int64 as bit patterns below 2 ^ 64, with wrapping arithmetic and the signed
--     order), `Dict` (a map as an association list) and `Format` (Sprintf's padded numbers).
--   Tests runs the models on concrete data.
--
-- Correspondence. A method that takes the mutex is one action on the store; its early returns are
-- `raise_if` and `or_raise`, in the order of the code. A sentinel error is a constructor of `Error`; the
-- text that wraps it is left out. A pointer in a map is written through by inserting the new value
-- under the same key. Go's map order is not fixed: where it shows, the list order stands for one of
-- the orders. The clock is an argument of each call that reads it. int64 and int wrap around.
-- A JSON value is a value: the code only appends to its slices, behind what others see of them. A byte
-- is a number, and a connection is the bytes that are still to come from it.
--
-- Parameters. float64 enters as the record `Ratios` of `Floats`: a test for zero, the constant one,
-- scaling by a ratio and a progress percentage, with the documented facts that the proofs use. The
-- random source of the fault engine enters as the record `Rng` of `Common.Fault`, whose Intn is below
-- its argument. The JSON numbers of ovn-sim and the text that `%v` prints enter as the record
-- `GoValues` of `Ovsdb.Json`, without any assumption, and the UUIDs that `uuid.New` gives as a function
-- from the index of the operation. What the RPC handlers take from outside enters as the record
-- `Externals` of `Server.Types`: the bytes of a text and back, the texts of errors, the decoding of a
-- domain's XML and the capabilities. The rates and the variables of awx-sim's jobs are of any type, and
-- the draw of a random number is a test on a rate. `Tests` instantiates them.
--
-- Bounds. Decimal formatting runs on twenty rounds, as a number below 2 ^ 64 has at most twenty
-- digits. A flatten takes ten rounds and one last step; a migration takes one step to begin,
-- ten rounds, one step to wind up and one to complete. These are the code's own loops.
-- LocationAncestors gets one round for each location and one to end. The loop of a connection gets one
-- round for each byte of its input and one more, as each message has at least four bytes.
--
-- Not modelled: routing, JSON texts and logging; the listeners of libvirt-sim and its management
-- handlers; the server and the clusters of ovn-sim; the handlers of awx-sim and netbox-sim; load-gen,
-- the data generator and the snapshot service; postgres and webui, which wrap other programs. In the
-- libvirt models each call is made as a whole: interleavings inside a call or between connections,
-- simulated delays, and changes through the pointers that GetHost and GetDomain hand out, are left
-- out. Transact of ovn-sim is run as one action, too: the code takes the store's mutex for each
-- operation of a transaction, and other connections may come between. In the model of awx-sim a timer
-- may fire at any time, also one that Reset stops. The lengths and positions of the XDR decoder are
-- those of data in memory, far below the largest int, so that only the size that ReadFixedOpaque is
-- given can make its sum wrap around.
--
-- The used capacity of a backend in the invariant of the storage store is the code's own account, the
-- sizes of the thick volumes; docs/spec/05-storage-sim.md 5.4.1 also states another, the sum of what
-- volumes and snapshots consume, which the code does not keep.
pub mod Base
pub mod Floats
pub mod Storage
pub mod Libvirt
pub mod Common
pub mod Ovsdb
pub mod Awx
pub mod Netbox
pub mod Rpc
pub mod Server
pub mod Tests
