-- ===== src/Relay.antt =====
-- The relay node (relay-node/).
pub mod Frame
pub mod Auth
pub mod Dispatcher
pub mod SessionTable
pub mod Forwarder
pub mod Tcp
pub mod Registrar
mod Tests
