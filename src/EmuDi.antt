-- ===== src/EmuDi.antt =====
-- ios/EmuDI/EmuDI.cpp, the emulated disc interface: reads of the disc, with the parts past
-- 0x80000000 words taken from patch files by a table that the channel sends.
pub mod Table
pub mod DiError
pub mod DiIoctl
pub mod Disc
pub mod Read
pub mod Requests
pub mod Search
pub mod Bounds
pub mod Straddle
pub mod Exact
pub mod Guards
pub mod Iso
mod Tests
