-- ===== src/Rpc.antt =====
-- libvirt-sim/internal/rpc: the encoding of libvirt's RPC messages.
pub mod Words
pub mod Encoder
pub mod Decoder
pub mod At
pub mod RoundTrip
pub mod Protocol
pub mod Framing
pub mod Safety
pub mod Crashes
pub mod Consumed
