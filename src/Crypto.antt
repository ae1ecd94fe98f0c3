-- ===== src/Crypto.antt =====
-- net/crypto.hpp, net/CryptoSession.cpp and net/CryptoContext.cpp: DTLS over a stream.
pub mod Library
pub mod Keys
pub mod Peers
pub mod Context
pub mod Session
pub mod Handlers
pub mod States
pub mod Lifecycle
pub mod Calls
pub mod Histories
pub mod Opening
pub mod Termination
pub mod Samples
pub mod Slots
pub mod Wiring
mod Examples
