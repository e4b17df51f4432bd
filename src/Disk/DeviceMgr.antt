-- ===== src/Disk/DeviceMgr.antt =====
-- ios/Disk/DeviceMgr.cpp, the table of storage devices: the device thread's work on a device, and
-- the calls of the volumes. What USB devices do to the table is in DeviceMgr/Usb.antt.
pub mod Usb
pub mod Pass
pub mod Life
pub mod Notices
pub mod Induct
pub mod Trace
pub mod Owners
pub mod Calls
pub mod Refused
use saoirse.Prelude.{
  ℕ, zero, suc, ◌+◌, Bool, true, false, not, ◌&&◌, ◌||◌, Option, none, some, List, [], ◌∷◌, ltb,
  ◌==◌, if◌then◌else◌, ℤ, pos, eq_ℤ,
}
use saoirse.Prelude.Buffers.{Buffer}
use saoirse.EmuFs.Env.{FResult, is_ok}
use saoirse.Disk.Usb.{UsbEnv}
use saoirse.Disk.Storage.{UsbStorage}
use saoirse.Disk.Storage

-- `DeviceMgr::DeviceCount`
abbrev pub device_count : ℕ
device_count = 9

-- `std::variant<SDCard, USBStorage>`
pub data DiskVariant : Type 0 where
  sd_card : DiskVariant
  usb_storage : UsbStorage → DiskVariant

unfoldable pub is_sd_card : DiskVariant → Bool
is_sd_card sd_card = true
is_sd_card (usb_storage s) = false

-- `DeviceMgr::DeviceHandle` without the file system, which only FatFs reads.
pub record DeviceHandle : Type 0 where
  pub disk : DiskVariant
  pub enabled : Bool
  pub inserted : Bool
  pub error : Bool
  pub mounted : Bool

-- `DeviceMgr::USBDeviceHandle`
pub record UsbDeviceHandle : Type 0 where
  pub in_use : Bool
  pub usb_id : ℕ
  pub int_id : ℕ

-- `NotifyDeviceInsertion` and `NotifyDeviceRemoval` of `IPCLog`
pub data Notice : Type 0 where
  device_insertion device_removal : ℕ → Notice

-- The members of `DeviceMgr`, with the notices sent so far, the last one first.
pub record DeviceTable : Type 0 where
  pub devices : ℕ → DeviceHandle
  pub usb_devices : ℕ → UsbDeviceHandle
  pub log_enabled : Bool
  pub log_device : ℕ
  pub sent : List Notice

-- What the manager calls: USB messages, the operations of `SDCard`, FatFs with a device's drive,
-- and the memory that a new `USBStorage` is made in. Opening, writing and syncing the log file read and
-- write the drive of the log device: they tell whether a call of that drive failed, which sets the
-- device's error.
pub record ManagerEnv : Type 1 where
  pub usb : UsbEnv
  pub startup : usb.World → Bool × usb.World
  pub sd_inserted : usb.World → Bool × usb.World
  pub sd_read : ℕ → ℕ → Buffer → usb.World → ℤ × Buffer × usb.World
  pub sd_write : ℕ → ℕ → Buffer → usb.World → ℤ × usb.World
  pub f_mount : ℕ → usb.World → FResult × usb.World
  pub f_unmount : ℕ → usb.World → FResult × usb.World
  pub f_open_log : ℕ → usb.World → FResult × Bool × usb.World
  pub f_write_log : List ℕ → usb.World → Bool × usb.World
  pub f_sync_log : usb.World → Bool × usb.World
  pub alloc : usb.World → UsbStorage × usb.World

-- `Config::IsFileLogEnabled`
abbrev pub is_file_log_enabled : Bool
is_file_log_enabled = true

abbrev pub set_device : DeviceTable → ℕ → DeviceHandle → DeviceTable
set_device s k d = record s { devices = λ x. if x == k then d else s.devices x }

-- `IsInserted`, `IsMounted` and `SetError`; callers pass ids below the count.
unfoldable pub is_inserted : ℕ → DeviceTable → Bool
is_inserted k s = (s.devices k).inserted && not (s.devices k).error

unfoldable pub is_mounted : ℕ → DeviceTable → Bool
is_mounted k s = is_inserted k s && (s.devices k).mounted

unfoldable pub set_error : ℕ → DeviceTable → DeviceTable
set_error k s = set_device s k (record (s.devices k) { error = true })

-- `InitHandle`
unfoldable pub init_handle : ℕ → DeviceTable → DeviceTable
init_handle k s =
    set_device s k
      (record (s.devices k) { enabled = false; inserted = false; error = false; mounted = false })

-- `IsLogEnabled`
unfoldable pub is_log_enabled : DeviceTable → Bool
is_log_enabled s = s.log_enabled && is_mounted s.log_device s

abbrev pub set_disk : ℕ → DeviceTable → UsbStorage → DeviceTable
set_disk k s u = set_device s k (record (s.devices k) { disk = usb_storage u })

-- A device that is not enabled, or in error, is refused.
abbrev pub is_refused : ℕ → DeviceTable → Bool
is_refused k s = not (s.devices k).enabled || (s.devices k).error

module _ (E : ManagerEnv) where
  abbrev pub World : Type 0
  World = E.usb.World

  -- `WriteToLog`
  unfoldable pub write_to_log : List ℕ → DeviceTable → World → DeviceTable × World
  write_to_log str s w =
      let (failed1, w1) = E.f_write_log str w in
      let (failed2, w2) = E.f_write_log (10 ∷ []) w1 in
      let (failed3, w3) = E.f_sync_log w2 in
      if not (is_log_enabled s)
      then (s, w)
      else ((if failed1 || failed2 || failed3 then set_error s.log_device s else s), w3)

  -- `OpenLogFile`
  unfoldable pub open_log_file : DeviceTable → World → DeviceTable × World
  open_log_file s w =
      let (fret, failed, w') = E.f_open_log s.log_device w in
      let s1 = if failed then set_error s.log_device s else s in
      if is_ok fret then (record s1 { log_enabled = true }, w') else (s1, w')

  -- The start of `UpdateHandle`: whether a card is in, and the error of an ejected device is cleared.
  unfoldable pub detect : ℕ → DeviceTable → World → DeviceTable × World
  detect k s w =
      let d = s.devices k in
      let (card, w') = E.sd_inserted w in
      let now = if is_sd_card d.disk then card else d.inserted in
      (
        set_device s k (record d { inserted = now; error = d.error && now }),
        if is_sd_card d.disk then w' else w,
      )

  -- Its middle, which returns early where FatFs fails.
  unfoldable pub unmount_ejected : ℕ → DeviceTable → World → Bool × DeviceTable × World
  unmount_ejected k s w =
      let d = s.devices k in
      let sd = is_sd_card d.disk in
      let s1 : DeviceTable =
        if s.log_enabled && sd
        then record s { log_enabled = false; log_device = device_count }
        else s in
      let (fret, w') = E.f_unmount k w in
      let d1 : DeviceHandle = record d { error = false; mounted = false } in
      let d2 : DeviceHandle = if sd then d1 else record d1 { enabled = false } in
      if d.inserted || not d.mounted
      then (true, s, w)
      else if is_ok fret
      then (true, record (set_device s1 k d2) { sent = device_removal k ∷ s.sent }, w')
      else (false, set_device s1 k (record d1 { error = true }), w')

  -- Its end.
  unfoldable pub mount_inserted : ℕ → DeviceTable → World → DeviceTable × World
  mount_inserted k s w =
      let d = s.devices k in
      let (fret, w1) = E.f_mount k w in
      let s1 = set_device s k (record d { mounted = true; error = false }) in
      let (s2, w2) =
        if not s.log_enabled && is_file_log_enabled && is_sd_card d.disk
        then open_log_file (record s1 { log_device = k }) w1
        else (s1, w1) in
      if not d.inserted || d.mounted || d.error
      then (s, w)
      else if is_ok fret
      then (record s2 { sent = device_insertion k ∷ s2.sent }, w2)
      else (set_device s k (record d { error = true; enabled = false }), w1)

  -- `UpdateHandle`
  unfoldable pub update_handle : ℕ → DeviceTable → World → DeviceTable × World
  update_handle k s w =
      let (s1, w1) = detect k s w in
      let (continues, s2, w2) = unmount_ejected k s1 w1 in
      if not (s.devices k).enabled
      then (s, w)
      else if continues
      then mount_inserted k s2 w2
      else (s2, w2)

  -- The loop of `Run` over the devices from `k` on.
  unfoldable pub update_handles : ℕ → ℕ → DeviceTable → World → DeviceTable × World
  update_handles zero k s w = (s, w)
  update_handles (suc rounds) k s w =
      let (s1, w1) = update_handle k s w in update_handles rounds (k + 1) s1 w1

  -- `DeviceInit`, `DeviceRead`, `DeviceWrite` and `DeviceSync`; `none` is a failed assertion.
  -- How they end: a storage keeps what the command left in it, and a failure sets the error.
  abbrev pub Served : Type 0
  Served = Option (Bool × Buffer × DeviceTable × World)

  unfoldable pub finish : ℕ → DeviceTable → Bool → Buffer → World → Served
  finish k s fine bytes w = some (fine, bytes, (if fine then s else set_error k s), w)

  unfoldable pub device_init : ℕ → Buffer → DeviceTable → World → Served
  device_init k bytes s w =
      let (fine, w') = E.startup w in
      if is_refused k s then some (false, bytes, s, w) else elim ((s.devices k).disk) [
        | sd_card ↦ finish k s fine bytes w'
        | usb_storage u ↦ elim (Storage.Init.init E.usb u w) [
          | none ↦ none
          | some (done, u', w2) ↦ finish k (set_disk k s u') done bytes w2
        ]
      ]

  unfoldable pub device_read : ℕ → Buffer → ℕ → ℕ → DeviceTable → World → Served
  device_read k bytes sector count s w =
      let (ret, bytes', w') = E.sd_read sector count bytes w in
      if is_refused k s then some (false, bytes, s, w) else elim ((s.devices k).disk) [
        | sd_card ↦ finish k s (eq_ℤ ret (pos 0)) bytes' w'
        | usb_storage u ↦ elim (Storage.read_sectors E.usb sector count bytes u w) [
          | none ↦ none
          | some (done, b, u', w2) ↦ finish k (set_disk k s u') done b w2
        ]
      ]

  unfoldable pub device_write : ℕ → Buffer → ℕ → ℕ → DeviceTable → World → Served
  device_write k bytes sector count s w =
      let (ret, w') = E.sd_write sector count bytes w in
      if is_refused k s then some (false, bytes, s, w) else elim ((s.devices k).disk) [
        | sd_card ↦ finish k s (eq_ℤ ret (pos 0)) bytes w'
        | usb_storage u ↦ elim (Storage.write_sectors E.usb sector count bytes u w) [
          | none ↦ none
          | some (done, b, u', w2) ↦ finish k (set_disk k s u') done bytes w2
        ]
      ]

  unfoldable pub device_sync : ℕ → Buffer → DeviceTable → World → Served
  device_sync k bytes s w =
      if is_refused k s then some (false, bytes, s, w) else elim ((s.devices k).disk) [
        | sd_card ↦ some (true, bytes, s, w)
        | usb_storage u ↦ elim (Storage.sync E.usb u w) [
          | none ↦ none
          | some (done, b, u', w2) ↦ finish k (set_disk k s u') done bytes w2
        ]
      ]
