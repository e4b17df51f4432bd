-- ===== src/Disk.antt =====
-- ios/Disk, the storage devices: USB messages, mass storage on USB, the sectors of SD cards, the
-- device manager with its table of devices, and the time stamps of the volumes.
pub mod UsbError
pub mod Usb
pub mod Storage
pub mod DeviceMgr
pub mod FatFs
mod Tests
