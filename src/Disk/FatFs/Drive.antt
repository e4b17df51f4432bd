-- ===== src/Disk/FatFs/Drive.antt =====
-- ios/Disk/FatFS.cpp, DeviceMgr.cpp, USBStorage.cpp and USB.cpp together: FatFs reads a USB drive.
use saoirse.Prelude.{ℕ, ◌^◌, ◌≤◌, ◌<◌, ◌≡◌, ◌∙◌, arith, ap, true, false, some, u32}
use saoirse.Prelude.Buffers.{Buffer}
use saoirse.Disk.Storage.{UsbStorage, read_sectors}
use saoirse.Disk.Storage.Stream.{IsFor}
use saoirse.Disk.Storage.Drive.{IsDrive, Holds, read_sectors-Holds}
use saoirse.Disk.DeviceMgr.{
  ManagerEnv, World, DeviceTable, usb_storage, set_disk, device_read, finish, is_refused,
}
use saoirse.Disk.FatFs.{disk_read}

module _ (E : ManagerEnv) (dev out inward : ℕ) (image : Buffer)
    (d : IsDrive E.usb dev out inward image) where
  -- A read by FatFs of a drive on USB that answers READ(10) from its image, where the device is in
  -- service, has blocks of 512 bytes and a unit up to 16, and its storage a buffer that is aligned and
  -- in the region for transfers: for 1 to 65535 blocks the read succeeds and gives the blocks of the
  -- image from the asked one on, whatever the chunks they came in; the rest of the caller's buffer
  -- stays, and so does the table but for the drive's storage.
  pub disk_read_exact :
      (k first count : ℕ) (b : Buffer) (s : DeviceTable) (w : World E) (u : UsbStorage)
      → (s.devices k).disk ≡ usb_storage u
      → is_refused k s ≡ false
      → IsFor E.usb dev out inward d.answers u
      → u.block_size ≡ 512
      → u.lun ≤ 16
      → first < 2 ^ 32
      → 0 < count
      → count < 2 ^ 16
      → (b' : Buffer) × (u' : UsbStorage) × (w' : World E) × (disk_read E k b first count s w
          ≡ some (0, b', set_disk k s u', w'))
        × Holds E.usb dev out inward image d first count b b'
  unfolding disk_read device_read finish
  disk_read_exact k first count b s w u is_usb in_service for blocks lun_in small many few =
      let (b', u', w', run, holds) =
        read_sectors-Holds E.usb dev out inward image d first count b u w for blocks lun_in small
          many few in
      let first_fits : u32 first ≡ first = omega (arith, small) in
      let count_fits : u32 count ≡ count = omega (arith, few) in
      let run' : read_sectors E.usb (u32 first) (u32 count) b u w ≡ some (true, b', u', w') =
        ap (λ f. read_sectors E.usb f (u32 count) b u w) first_fits
        ∙ ap (λ c. read_sectors E.usb first c b u w) count_fits
        ∙ run in
      (b', u', w', ground (arith, is_usb, in_service, run'), holds)
