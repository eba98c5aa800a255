-- ===== src/Auth.antt =====
-- The module modules/Auth: authorization, connector states and reservations.
pub mod ConnectorMachine
pub mod Data
pub mod Reservations
pub mod Sessions
pub mod Selection
pub mod Tokens
pub mod Booking
pub mod Intersections
pub mod InProcess
pub mod Plugs
pub mod Choice
pub mod Grants
pub mod Denials
mod Scenarios
