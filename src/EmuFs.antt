-- ===== src/EmuFs.antt =====
-- ios/IOS/EmuFS.cpp, the emulated file system of IOS: a resource manager over a table of files on a
-- FAT volume, beside the real one.
pub mod Env
pub mod IosError
pub mod IsfsError
pub mod Types
pub mod Errors
pub mod Table
pub mod Paths
pub mod Requests
pub mod Ioctl
pub mod Ioctlv
pub mod Dispatch
pub mod Inv
pub mod Search
pub mod Reopen
pub mod Access
pub mod Answers
pub mod Slots
mod Tests
