-- ===== src/VideoRelay.antt =====
-- main/video_relay.cpp: the frames of video on their way along the chain.
pub mod State
pub mod Socket
pub mod Frames
pub mod Server
pub mod Client
pub mod Wire
pub mod Receiving
pub mod Ending
pub mod Serving
pub mod Sending
pub mod Hop
pub mod Arrival
pub mod Blocks
pub mod Ownership
pub mod Accounting
pub mod Setup
pub mod Wifi
pub mod Starting
pub mod Started
pub mod Joining
pub mod Connect
pub mod Dialling
pub mod SelfTest
mod Tests
