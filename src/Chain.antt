-- ===== src/Chain.antt =====
-- main/chain_node.cpp: the state machine of the status chain on one node.
pub mod State
pub mod Effects
pub mod Handlers
pub mod Loop
pub mod Invariant
pub mod History
pub mod Hop
pub mod Line
pub mod Receive
pub mod Lanes
pub mod Deadline
pub mod Neighbours
pub mod Radio
pub mod Pairing
pub mod Served
mod Tests
mod RadioTests
