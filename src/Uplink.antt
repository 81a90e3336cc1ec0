-- ===== src/Uplink.antt =====
-- main/gateway_uplink.cpp: the Gateway's two uplinks to the backend, and the driver's watchdog.
pub mod State
pub mod Status
pub mod Line
pub mod Connect
pub mod Queues
pub mod Starting
pub mod Started
pub mod Counted
pub mod Video
pub mod Reassembly
pub mod Ownership
pub mod Watchdog
pub mod Recovery
mod Tests
