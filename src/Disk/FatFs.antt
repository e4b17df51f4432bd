-- ===== src/Disk/FatFs.antt =====
-- ios/Disk/FatFS.cpp, what FatFs calls: the drives as devices of the manager, and time stamps.
pub mod Dates
pub mod Errors
pub mod Drive
use saoirse.Prelude.{
  ℕ, zero, suc, ◌+◌, ◌-◌, ◌*◌, ◌/◌, ◌%◌, ◌^◌, Bool, true, false, Option, none, some, leb, ltb, ◌==◌,
  if◌then◌else◌, u32,
}
use saoirse.Prelude.Buffers.{Buffer, copy}
use saoirse.Kernel.{unaligned_memcpy}
use saoirse.Disk.DeviceMgr.{
  ManagerEnv, World, DeviceTable, is_mounted, device_init, device_read, device_write, device_sync,
}

-- The constants of diskio.h, and the answers `STA_NODISK`, `STA_NOINIT`, `RES_ERROR`, `RES_PARERR`.
abbrev pub sta_noinit : ℕ
sta_noinit = 1

abbrev pub sta_nodisk : ℕ
sta_nodisk = 2

abbrev pub res_error : ℕ
res_error = 1

abbrev pub res_parerr : ℕ
res_parerr = 4

abbrev pub ctrl_sync : ℕ
ctrl_sync = 0

abbrev pub get_sector_size : ℕ
get_sector_size = 2

-- The number of a drive is the id of its device.
abbrev pub drv_to_dev_id : ℕ → ℕ
drv_to_dev_id drv = drv

-- `ff_memcpy`, from bytes that it does not overlap: the first memory takes whole words only.
unfoldable pub ff_memcpy : ℕ → Buffer → ℕ → Buffer → Buffer
ff_memcpy dst src len m =
    if ltb dst 0x02000000 then unaligned_memcpy dst src len m else copy m dst src 0 len

-- `disk_status`
unfoldable pub disk_status : ℕ → DeviceTable → ℕ
disk_status pdrv s = if is_mounted (drv_to_dev_id pdrv) s then 0 else sta_nodisk

module _ (E : ManagerEnv) where
  -- A code, what the buffer holds, the table and the world.
  abbrev pub Answered : Type 0
  Answered = Option (ℕ × Buffer × DeviceTable × World E)

  abbrev pub code : ℕ → Bool → ℕ
  code bad fine = if fine then 0 else bad

  -- `disk_initialize`, `disk_read` and `disk_write`
  unfoldable pub disk_initialize : ℕ → Buffer → DeviceTable → World E → Answered
  disk_initialize pdrv b s w = elim (device_init E (drv_to_dev_id pdrv) b s w) [
    | none ↦ none
    | some (fine, b', s', w') ↦ some (code sta_noinit fine, b', s', w')
  ]

  unfoldable pub disk_read : ℕ → Buffer → ℕ → ℕ → DeviceTable → World E → Answered
  disk_read pdrv b sector count s w =
      elim (device_read E (drv_to_dev_id pdrv) b (u32 sector) (u32 count) s w) [
        | none ↦ none
        | some (fine, b', s', w') ↦ some (code res_error fine, b', s', w')
      ]

  unfoldable pub disk_write : ℕ → Buffer → ℕ → ℕ → DeviceTable → World E → Answered
  disk_write pdrv b sector count s w =
      elim (device_write E (drv_to_dev_id pdrv) b (u32 sector) (u32 count) s w) [
        | none ↦ none
        | some (fine, b', s', w') ↦ some (code res_error fine, b', s', w')
      ]

  -- `disk_ioctl`; the size of a sector is a big-endian word of 16 bits.
  unfoldable pub disk_ioctl : ℕ → ℕ → Buffer → DeviceTable → World E → Answered
  disk_ioctl pdrv cmd b s w =
      let sized : Buffer = λ x. if x == 0 then 2 else if x == 1 then 0 else b x in
      let unknown : Answered =
        if cmd == get_sector_size then some (0, sized, s, w) else some (res_parerr, b, s, w) in
      elim (device_sync E (drv_to_dev_id pdrv) b s w) [
        | none ↦ if cmd == ctrl_sync then none else unknown
        | some (fine, b', s', w') ↦
            if cmd == ctrl_sync then some (code res_error fine, b', s', w') else unknown
      ]
