-- ===== src/Control.antt =====
-- The control plane (control-plane/).
pub mod MeshToken
pub mod Nodes
pub mod NodeService
pub mod NodeHandler
pub mod Scheduler
pub mod Stun
mod ToyCrypto
mod ToyTokens
mod ListHeap
mod Tests
mod GraphTests
mod PathTests
mod RelayTests
mod RouteTests
mod EnrolmentTests
mod AccountTests
pub mod Events
pub mod Relays
pub mod Allowlist
pub mod Enrolment
pub mod Routes
pub mod RouteService
pub mod Graph
pub mod Paths
pub mod Accounts
pub mod Tokens
pub mod Auth
pub mod Settings
pub mod Devices
