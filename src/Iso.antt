-- ===== src/Iso.antt =====
-- The ISO 15118-2 server of modules/EvseV2G: its messages, the handlers, and one connection.
pub mod Messages
pub mod AcState
pub mod DcState
pub mod Context
pub mod Setup
pub mod Charging
pub mod Requests
pub mod Connection
pub mod Tables
pub mod Owed
pub mod Handlers
pub mod Accepted
pub mod Late
pub mod Earned
pub mod Earning
pub mod Authorized
pub mod Contactor
mod Scenarios
