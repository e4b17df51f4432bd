-- ===== src/Disk/DeviceMgr/Usb.antt =====
-- ios/Disk/DeviceMgr.cpp, `USBChange`: USB devices that come and go, and the rounds of `Run`.
use saoirse.Prelude.{
  ℕ, zero, suc, ◌+◌, ◌%◌, ◌^◌, Bool, true, false, not, ◌&&◌, Option, none, some, ltb, ◌==◌,
  if◌then◌else◌, eq_ℤ,
}
use saoirse.Disk.UsbError
use saoirse.Disk.Usb.{DeviceEntry, DeviceInfo}
use saoirse.Disk.Storage.{UsbStorage}
use saoirse.Disk.DeviceMgr.{
  ManagerEnv, World, DeviceTable, DeviceHandle, UsbDeviceHandle, usb_storage, device_count,
  set_device, update_handles,
}

-- `USB::MaxDevices`
abbrev pub max_devices : ℕ
max_devices = 32

-- `ClassCode::MassStorage`, `SubClass::MassStorage_SCSI` and `Protocol::MassStorage_BulkOnly`
unfoldable pub is_mass_storage : DeviceInfo → Bool
is_mass_storage info =
    info.if_class == 0x08 && info.if_sub_class == 0x06 && info.if_protocol == 0x50

abbrev pub set_usb : DeviceTable → ℕ → UsbDeviceHandle → DeviceTable
set_usb s i h = record s { usb_devices = λ x. if x == i then h else s.usb_devices x }

-- The loops that stop at the first number from `j` on that a test accepts; past the last round none.
unfoldable pub first_from : (ℕ → Bool) → ℕ → ℕ → Option ℕ
first_from test zero j = none
first_from test (suc rounds) j = if test j then some j else first_from test rounds (j + 1)

-- The entry of a device that was known; only 16 bits of the ids count.
unfoldable pub find_entry : (ℕ → DeviceEntry) → ℕ → UsbDeviceHandle → Option ℕ
find_entry entries count h =
    first_from (λ j. (entries j).dev_id % 2 ^ 16 == h.usb_id % 2 ^ 16) count 0

-- One round of the scan: a device in use is found again, or its slot is no longer inserted.
unfoldable pub scan_handle :
    (ℕ → DeviceEntry) → ℕ → ℕ → DeviceTable → (ℕ → Bool) → DeviceTable × (ℕ → Bool)
scan_handle entries count i s found =
    let h = s.usb_devices i in
    let id = h.int_id in
    let h1 : UsbDeviceHandle =
      if ltb id device_count && (s.devices id).error
      then record h { int_id = device_count }
      else h in
    let s1 =
      if ltb id device_count
      then set_device s id (record (s.devices id) { inserted = false })
      else s in
    if not h.in_use then (s, found) else elim (find_entry entries count h) [
      | some j ↦ (set_usb s i h1, λ x. if x == j then true else found x)
      | none ↦ (set_usb s1 i (record h1 { in_use = false }), found)
    ]

unfoldable pub scan_handles :
    (ℕ → DeviceEntry) → ℕ → ℕ → ℕ → DeviceTable → (ℕ → Bool) → DeviceTable × (ℕ → Bool)
scan_handles entries count zero i s found = (s, found)
scan_handles entries count (suc rounds) i s found =
    let (s1, found1) = scan_handle entries count i s found in
    scan_handles entries count rounds (i + 1) s1 found1

module _ (E : ManagerEnv) where
  -- The first alternate setting that gives the descriptors.
  unfoldable pub find_info : ℕ → ℕ → ℕ → World E → Option DeviceInfo × World E
  find_info zero alt dev_id w = (none, w)
  find_info (suc rounds) alt dev_id w =
      let (ret, info, w') = E.usb.get_device_info dev_id alt w in
      let rest = find_info rounds (alt + 1) dev_id w' in
      if eq_ℤ ret UsbError.ok then (some info, w') else rest

  abbrev pub Changed : Type 0
  Changed = Option (DeviceTable × World E)

  -- A compatible device goes to the first slot that is not enabled.
  unfoldable pub use_slot : ℕ → DeviceInfo → DeviceTable → World E → DeviceTable × World E
  use_slot j info s w =
      let (memory, w') = E.alloc w in
      let u : UsbStorage = record memory { info = info; is_valid = false; tag = 0 } in
      let d : DeviceHandle = record {
        disk = usb_storage u;
        enabled = true;
        inserted = true;
        error = false;
        mounted = false;
      } in
      elim (first_from (λ k. not (s.devices k).enabled) device_count 0) [
        | none ↦ (s, w)
        | some k ↦ (set_usb (set_device s k d) j (record (s.usb_devices j) { int_id = k }), w')
      ]

  -- The descriptors of a new device; `none` is a failed assertion.
  unfoldable pub identify : DeviceEntry → ℕ → DeviceTable → World E → Changed
  identify entry j s w =
      let (found, w') = find_info entry.alt_set_count 0 entry.dev_id w in
      elim found [
        | none ↦ some (s, w')
        | some info ↦
            if not (info.dev_id == entry.dev_id)
            then none
            else if not (is_mass_storage info)
            then some (s, w')
            else some (use_slot j info s w')
      ]

  -- One round over the new devices.
  unfoldable pub add_device : DeviceEntry → DeviceTable → World E → Changed
  add_device entry s w = elim (first_from (λ j. not (s.usb_devices j).in_use) max_devices 0) [
    | none ↦ none
    | some j ↦
        let h : UsbDeviceHandle = record {
          in_use = true;
          usb_id = entry.dev_id;
          int_id = device_count;
        } in
        let s1 = set_usb s j h in
        let (ret, w') = E.usb.attach entry.dev_id w in
        if eq_ℤ ret UsbError.ok then identify entry j s1 w' else some (s1, w')
  ]

  unfoldable pub add_devices :
      (ℕ → DeviceEntry) → (ℕ → Bool) → ℕ → ℕ → DeviceTable → World E → Changed
  add_devices entries found zero i s w = some (s, w)
  add_devices entries found (suc rounds) i s w =
      elim (if found i then some (s, w) else add_device (entries i) s w) [
        | none ↦ none
        | some (s1, w1) ↦ add_devices entries found rounds (i + 1) s1 w1
      ]

  -- `USBChange`; `none` is `USBFatal` or a failed assertion.
  unfoldable pub usb_change : (ℕ → DeviceEntry) → ℕ → DeviceTable → World E → Changed
  usb_change entries count s w =
      let (s1, found) = scan_handles entries count max_devices 0 s (λ x. false) in
      if ltb max_devices count then none else add_devices entries found count 0 s1 w

  -- A round of `Run`: the timer, or an answer with the entries and their count.
  pub data Event : Type 0 where
    timer : Event
    device_change : (ℕ → DeviceEntry) → ℕ → Event

  unfoldable pub run_round : Event → DeviceTable → World E → Changed
  run_round timer s w = some (update_handles E device_count 0 s w)
  run_round (device_change entries count) s w = elim (usb_change entries count s w) [
    | none ↦ none
    | some (s1, w1) ↦ some (update_handles E device_count 0 s1 w1)
  ]
