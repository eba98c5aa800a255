-- ===== src/Modbus.antt =====
-- The Modbus RTU client of modules/SerialCommHub.
pub mod Frames
pub mod Replies
pub mod Hub
pub mod Buffers
pub mod Requests
pub mod Answers
pub mod Commands
mod Scenarios
