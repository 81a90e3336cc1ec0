-- ===== src/Spi.antt =====
-- main/luckfox_spi.cpp: the receiver of the LuckFox's frames and readings.
pub mod Receiver
pub mod Starting
pub mod Started
pub mod Bounds
pub mod Transfer
pub mod Stream
mod Tests
