-- ===== src/Slac.antt =====
-- The module modules/EvseSlac: the state machine library, the states of the matching, and the
-- controller.
pub mod Fsm
pub mod Context
pub mod Session
pub mod Matching
pub mod Timeouts
pub mod States
pub mod Controller
pub mod Histories
pub mod Transitions
pub mod Invariants
pub mod Checks
pub mod Keys
pub mod Places
pub mod Soundings
pub mod Orders
pub mod Confirmations
pub mod Orderly
pub mod Means
pub mod Rounds
pub mod Steps
pub mod Exchanges
mod Scenarios
