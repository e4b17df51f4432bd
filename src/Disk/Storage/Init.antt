-- ===== src/Disk/Storage/Init.antt =====
-- ios/Disk/USBStorage.cpp, `Init`: the endpoints, the logical unit and the block size of a device.
use saoirse.Prelude.{
  ℕ, zero, suc, ◌+◌, ◌%◌, ◌/◌, Bool, true, false, not, ◌&&◌, ◌||◌, none, some, ltb, ◌==◌,
  if◌then◌else◌,
}
use saoirse.Prelude.Buffers.{word}
use saoirse.Disk.Usb.{UsbEnv, dir_in}
use saoirse.Disk.Storage.{
  UsbStorage, Answer, get_lun_count, find_lun, read_capacity, test_unit_ready,
}

-- What the loop over the endpoints has found.
pub record Found : Type 0 where
  pub storage : UsbStorage
  pub out_found : Bool
  pub in_found : Bool

-- One round: the first bulk endpoint of each direction is taken.
unfoldable pub take_endpoint : ℕ → Found → Found
take_endpoint i f =
    let s = f.storage in
    let e = s.info.endpoint i in
    let is_bulk = e.attributes % 4 == 2 in
    let is_in = e.endpoint_addr / dir_in % 2 == 1 in
    if not is_bulk
    then f
    else if not f.out_found && not is_in
    then record f {
      storage = record s { out_endpoint = e.endpoint_addr; max_packet_size = e.max_packet_size };
      out_found = true;
    }
    else if not f.in_found && is_in
    then record f { storage = record s { in_endpoint = e.endpoint_addr }; in_found = true }
    else f

unfoldable pub find_endpoints : ℕ → ℕ → Found → Found
find_endpoints zero i f = f
find_endpoints (suc rounds) i f = find_endpoints rounds (i + 1) (take_endpoint i f)

module _ (U : UsbEnv) where
  open U use {World}

  -- The end of `Init`, on the logical unit that was found.
  unfoldable pub init_capacity : ℕ → UsbStorage → World → Answer U
  init_capacity lun s w = elim (read_capacity U lun s w) [
    | none ↦ none
    | some (false, b, s1, w1) ↦ some (false, s1, w1)
    | some (true, b, s1, w1) ↦
        elim (test_unit_ready U lun (record s1 { block_size = word b 4 }) w1) [
          | none ↦ none
          | some (false, b2, s2, w2) ↦ some (false, s2, w2)
          | some (true, b2, s2, w2) ↦ some (true, record s2 { is_valid = true }, w2)
        ]
  ]

  -- Its middle: the count of logical units, and the first one that works.
  unfoldable pub init_lun_count : UsbStorage → World → Answer U
  init_lun_count s w = elim (get_lun_count U s w) [
    | none ↦ none
    | some (none, s1, w1) ↦ some (false, s1, w1)
    | some (some count, s1, w1) ↦ elim (find_lun U count 0 s1 w1) [
      | none ↦ none
      | some (none, s2, w2) ↦ some (false, record s2 { lun = count }, w2)
      | some (some lun, s2, w2) ↦ init_capacity lun (record s2 { lun = lun }) w2
    ]
  ]

  -- `Init`; `none` is a failed assertion
  unfoldable pub init : UsbStorage → World → Answer U
  init s w =
      let start : Found = record { storage = s; out_found = false; in_found = false } in
      let f = find_endpoints s.info.num_endpoints 0 start in
      let s1 : UsbStorage = record (f.storage) { id = s.info.dev_id; interface = s.info.if_num } in
      if ltb 16 s.info.num_endpoints
      then none
      else if not f.out_found || not f.in_found
      then some (false, f.storage, w)
      else init_lun_count s1 w
