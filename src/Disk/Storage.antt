-- ===== src/Disk/Storage.antt =====
-- ios/Disk/USBStorage.cpp, mass storage on USB: SCSI commands over bulk transfers.
pub mod Init
pub mod Transfer
pub mod Stream
pub mod Total
pub mod Ready
pub mod Drive
pub mod Tests
use saoirse.Prelude.{
  ℕ, zero, suc, ◌+◌, ◌-◌, ◌*◌, ◌/◌, ◌%◌, ◌^◌, Bool, true, false, not, ◌&&◌, ◌||◌, Option, none,
  some, List, [], ◌∷◌, ◌++◌, ltb, leb, ◌==◌, if◌then◌else◌, ℤ, eq_ℤ, length, u32, min, replicate,
}
use saoirse.Prelude.Buffers.{Buffer, blit, fill_zero, copy, le32, word, word_le}
use saoirse.Disk.UsbError
use saoirse.Disk.Usb.{
  UsbEnv, DeviceInfo, dir_in, type_class_interface_in, write_bulk_msg, write_ctrl_msg,
}

-- The members of `USBStorage`, with the bytes of `m_buffer` and its address.
pub record UsbStorage : Type 0 where
  pub info : DeviceInfo
  pub is_valid : Bool
  pub id : ℕ
  pub interface : ℕ
  pub out_endpoint : ℕ
  pub in_endpoint : ℕ
  pub address : ℕ
  pub buffer : Buffer
  pub max_packet_size : ℕ
  pub tag : ℕ
  pub lun : ℕ
  pub block_size : ℕ

-- The sizes of the two wrappers, under the names that the code gives them.
abbrev pub csw_size : ℕ
csw_size = 0x1f

abbrev pub cbw_size : ℕ
cbw_size = 0xd

abbrev pub chunk_max : ℕ
chunk_max = 0x4000

-- the SCSI commands
abbrev pub scsi_test_unit_ready : ℕ
scsi_test_unit_ready = 0x0

abbrev pub scsi_request_sense : ℕ
scsi_request_sense = 0x3

abbrev pub scsi_inquiry : ℕ
scsi_inquiry = 0x12

abbrev pub scsi_read_capacity_10 : ℕ
scsi_read_capacity_10 = 0x25

abbrev pub scsi_read_10 : ℕ
scsi_read_10 = 0x28

abbrev pub scsi_write_10 : ℕ
scsi_write_10 = 0x2a

abbrev pub scsi_synchronize_cache_10 : ℕ
scsi_synchronize_cache_10 = 0x35

-- The command block wrapper that `SCSITransfer` writes at the start of the buffer.
unfoldable pub command_wrapper : Bool → ℕ → ℕ → ℕ → List ℕ → List ℕ
command_wrapper is_write tag size lun cb =
    le32 0x43425355
    ++ le32 tag
    ++ le32 size
    ++ ((if is_write then 0 else 0x80) ∷ lun ∷ length cb ∷ cb)

-- The command block of `ReadSectors` and `WriteSectors`: `write16` at 2 and 4, `write8` at 7 and 8.
unfoldable pub sector_command : ℕ → ℕ → ℕ → List ℕ
sector_command op first count =
    op
    ∷ 0
    ∷ first / 2 ^ 24 % 256
    ∷ first / 2 ^ 16 % 256
    ∷ first / 2 ^ 8 % 256
    ∷ first % 256
    ∷ 0
    ∷ count / 256 % 256
    ∷ count % 256
    ∷ 0
    ∷ []

-- The tests on the status wrapper that a command ends with.
unfoldable pub is_good_status : ℕ → Buffer → Bool
is_good_status tag b =
    word_le b 0x0 == 0x53425355 && word_le b 0x4 == tag && word_le b 0x8 == 0 && b 0xC == 0

module _ (U : UsbEnv) where
  open U use {World}

  -- One bulk message from the buffer: whether it succeeded; `none` is a failed assertion.
  unfoldable pub bulk : ℕ → ℕ → UsbStorage → World → Option (Bool × UsbStorage × World)
  bulk endpoint len s w = elim (write_bulk_msg U s.address s.id endpoint len s.buffer w) [
    | none ↦ none
    | some (ret, b, w') ↦ some (eq_ℤ ret UsbError.ok, record s { buffer = b }, w')
  ]

  -- The result of a command, the caller's data, and what changed.
  abbrev pub Done : Type 0
  Done = Option (Bool × Buffer × UsbStorage × World)

  -- The loop of `SCSITransfer` over chunks, with rounds; `at` is how far `data` has moved.
  unfoldable pub transfer_chunks : ℕ → Bool → ℕ → ℕ → Buffer → UsbStorage → World → Done
  transfer_chunks zero is_write left at bytes s w = none
  transfer_chunks (suc rounds) is_write left at bytes s w =
      let n = min left chunk_max in
      let endpoint = if is_write then s.out_endpoint else s.in_endpoint in
      let s1 : UsbStorage = record s {
        buffer = if is_write then copy s.buffer 0 bytes at n else s.buffer;
      } in
      let next = λ (s2 : UsbStorage) (w2 : World).
        transfer_chunks rounds is_write (left - n) (at + n)
          (if is_write then bytes else copy bytes at s2.buffer 0 n) s2 w2 in
      if left == 0 then some (true, bytes, s, w) else elim (bulk endpoint n s1 w) [
        | none ↦ none
        | some (true, s2, w2) ↦ next s2 w2
        | some (false, s2, w2) ↦ some (false, bytes, s2, w2)
      ]

  -- The end of `SCSITransfer`: the status is read and tested.
  unfoldable pub read_status : Buffer → UsbStorage → World → Done
  read_status bytes s w =
      let s1 : UsbStorage = record s { buffer = fill_zero s.buffer 0 cbw_size } in
      elim (bulk s.in_endpoint cbw_size s1 w) [
        | none ↦ none
        | some (fine, s2, w2) ↦ some (fine && is_good_status s2.tag s2.buffer, bytes, s2, w2)
      ]

  -- Its middle, once the command has been sent.
  unfoldable pub transfer_data : Bool → ℕ → Buffer → UsbStorage → World → Done
  transfer_data is_write size bytes s w =
      elim (transfer_chunks (size / chunk_max + 2) is_write size 0 bytes s w) [
        | none ↦ none
        | some (true, bytes', s', w') ↦ read_status bytes' s' w'
        | some (false, bytes', s', w') ↦ some (false, bytes', s', w')
      ]

  -- `SCSITransfer`; `has_data` tells whether `data` is not null.
  unfoldable pub scsi_transfer : Bool → ℕ → Bool → Buffer → ℕ → List ℕ → UsbStorage → World → Done
  scsi_transfer is_write size has_data bytes lun cb s w =
      let tag = u32 (s.tag + 1) in
      let b = blit (fill_zero s.buffer 0 csw_size) 0 (command_wrapper is_write tag size lun cb) in
      let s1 : UsbStorage = record s { tag = tag; buffer = b } in
      if (size == 0) && has_data || not (size == 0) && not has_data
      then none
      else if ltb 16 lun
      then none
      else if ltb (length cb) 1 || ltb 16 (length cb)
      then none
      else elim (bulk s.out_endpoint csw_size s1 w) [
        | none ↦ none
        | some (true, s2, w2) ↦ transfer_data is_write size bytes s2 w2
        | some (false, s2, w2) ↦ some (false, bytes, s2, w2)
      ]

  abbrev pub zeroes : Buffer
  zeroes x = 0

  -- `TestUnitReady`
  unfoldable pub test_unit_ready : ℕ → UsbStorage → World → Done
  test_unit_ready lun s w =
      scsi_transfer false 0 false zeroes lun (scsi_test_unit_ready ∷ replicate 5 0) s w

  -- `Inquiry`; the type is in the low five bits of the first byte
  unfoldable pub inquiry : ℕ → UsbStorage → World → Done
  inquiry lun s w =
      scsi_transfer false 36 true zeroes lun (scsi_inquiry ∷ lun * 32 % 256 ∷ 0 ∷ 0 ∷ 36 ∷ 0 ∷ []) s
        w

  -- `InitLun`
  abbrev pub Answer : Type 0
  Answer = Option (Bool × UsbStorage × World)

  unfoldable pub init_lun : ℕ → UsbStorage → World → Answer
  init_lun lun s w = elim (test_unit_ready lun s w) [
    | none ↦ none
    | some (false, b, s1, w1) ↦ some (false, s1, w1)
    | some (true, b, s1, w1) ↦ elim (inquiry lun s1 w1) [
      | none ↦ none
      | some (fine, response, s2, w2) ↦ some (fine && response 0 % 32 == 0, s2, w2)
    ]
  ]

  -- `RequestSense`, whose result its caller drops
  unfoldable pub request_sense : ℕ → UsbStorage → World → Done
  request_sense lun s w =
      scsi_transfer false 18 true zeroes lun (scsi_request_sense ∷ 0 ∷ 0 ∷ 0 ∷ 18 ∷ 0 ∷ []) s w

  -- The inner loop of `FindLun`, with the attempts that are left.
  unfoldable pub try_lun : ℕ → ℕ → UsbStorage → World → Answer
  try_lun zero lun s w = some (false, s, w)
  try_lun (suc tries) lun s w = elim (init_lun lun s w) [
    | none ↦ none
    | some (true, s1, w1) ↦ some (true, s1, w1)
    | some (false, s1, w1) ↦ elim (request_sense lun s1 w1) [
      | none ↦ none
      | some (fine, b, s2, w2) ↦ try_lun tries lun s2 w2
    ]
  ]

  -- `FindLun`, with the logical units that are left
  unfoldable pub find_lun : ℕ → ℕ → UsbStorage → World → Option (Option ℕ × UsbStorage × World)
  find_lun zero lun s w = some (none, s, w)
  find_lun (suc left) lun s w = elim (try_lun 5 lun s w) [
    | none ↦ none
    | some (true, s1, w1) ↦ some (some lun, s1, w1)
    | some (false, s1, w1) ↦ find_lun left (lun + 1) s1 w1
  ]

  -- `GetLunCount`; the count is none where it is not from 1 to 16
  unfoldable pub get_lun_count : UsbStorage → World → Option (Option ℕ × UsbStorage × World)
  get_lun_count s w =
      elim (write_ctrl_msg U s.address s.id type_class_interface_in 0xfe 0 s.interface 1 s.buffer
        w) [
          | none ↦ none
          | some (ret, b, w') ↦
              let s' : UsbStorage = record s { buffer = b } in
              let count = (b 0 + 1) % 256 in
              if not (eq_ℤ ret UsbError.ok)
              then some (none, s', w')
              else if leb 1 count && leb count 16
              then some (some count, s', w')
              else some (none, s', w')
        ]

  -- `ReadCapacity`; the block size is the second big-endian word of the response
  unfoldable pub read_capacity : ℕ → UsbStorage → World → Done
  read_capacity lun s w =
      scsi_transfer false 8 true zeroes lun (scsi_read_capacity_10 ∷ replicate 9 0) s w

  -- `ReadSectors` and `WriteSectors`; `none` is a failed assertion
  unfoldable pub read_sectors : ℕ → ℕ → Buffer → UsbStorage → World → Done
  read_sectors first count bytes s w =
      if ltb 0xFFFF count
      then none
      else scsi_transfer false (u32 (count * s.block_size)) true bytes s.lun
          (sector_command scsi_read_10 first count) s w

  unfoldable pub write_sectors : ℕ → ℕ → Buffer → UsbStorage → World → Done
  write_sectors first count bytes s w =
      if ltb 0xFFFF count
      then none
      else scsi_transfer true (u32 (count * s.block_size)) true bytes s.lun
          (sector_command scsi_write_10 first count) s w

  -- `Sync`
  unfoldable pub sync : UsbStorage → World → Done
  sync s w =
      scsi_transfer false 0 false zeroes s.lun (scsi_synchronize_cache_10 ∷ replicate 9 0) s w
