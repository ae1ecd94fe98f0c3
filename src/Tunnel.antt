-- ===== src/Tunnel.antt =====
-- net/tunnel.hpp, net/tunnel-channels.hpp and the net/Tunnel*.cpp files: channels over a stream.
pub mod Header
pub mod Reliable
pub mod Protocol
pub mod Data
pub mod Owner
mod Examples
