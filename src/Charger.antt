-- ===== src/Charger.antt =====
-- The charger of modules/EvseManager: Charger.hpp and Charger.cpp.
pub mod Data
pub mod Signals
pub mod Session
pub mod Current
pub mod Machine
pub mod Cycle
pub mod Events
pub mod History
pub mod Safety
pub mod Passes
pub mod Calls
pub mod Outputs
pub mod Speech
pub mod Guards
pub mod Progress
pub mod Limits
mod Scenarios
