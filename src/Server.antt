-- ===== src/Server.antt =====
-- libvirt-sim/internal/rpc: the server behind each listener, over the store of `Libvirt` and the
-- encoding of `Rpc`.
pub mod Types
pub mod Events
pub mod Parts
pub mod Domains
pub mod Queries
pub mod Migrations
pub mod Dispatch
pub mod Connections
mod Streams
mod Ends
mod Answers
mod Handlers
pub mod Replies
pub mod References
mod Wire
mod Refines
mod EventLaws
mod Keeps
mod ParamLaws
