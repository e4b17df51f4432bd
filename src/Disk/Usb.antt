-- ===== src/Disk/Usb.antt =====
-- ios/Disk/USB.cpp and USB.hpp, the messages to a USB device that its storage driver sends.
use saoirse.Prelude.{
  ℕ, ◌+◌, ◌%◌, ◌^◌, Bool, not, ◌&&◌, Option, none, some, ltb, leb, ◌==◌, if◌then◌else◌, ℤ, pos,
  is_neg, eq_ℤ, aligned,
}
use saoirse.Prelude.Buffers.{Buffer}
use saoirse.Disk.UsbError

-- The parts of the descriptors that are read: `EndpointDescriptor`, `DeviceInfo` and `DeviceEntry`.
pub record EndpointDescriptor : Type 0 where
  pub endpoint_addr : ℕ
  pub attributes : ℕ
  pub max_packet_size : ℕ

pub record DeviceInfo : Type 0 where
  pub dev_id : ℕ
  pub if_num : ℕ
  pub num_endpoints : ℕ
  pub if_class : ℕ
  pub if_sub_class : ℕ
  pub if_protocol : ℕ
  pub endpoint : ℕ → EndpointDescriptor

pub record DeviceEntry : Type 0 where
  pub dev_id : ℕ
  pub alt_set_count : ℕ

-- The calls of `/dev/usb/ven`. A transfer may change the buffer.
pub record UsbEnv : Type 1 where
  pub World : Type 0
  pub bulk_transfer : ℕ → ℕ → ℕ → Buffer → World → ℤ × Buffer × World
  pub ctrl_transfer : ℕ → ℕ → ℕ → ℕ → ℕ → ℕ → Buffer → World → ℤ × Buffer × World
  pub attach : ℕ → World → ℤ × World
  pub get_device_info : ℕ → ℕ → World → ℤ × DeviceInfo × World

-- `USB::CtrlType`
abbrev pub dir_in : ℕ
dir_in = 0x80

abbrev pub type_class_interface_in : ℕ
type_class_interface_in = 0xA1

-- `assert`: buffers are in the region where virtual and physical addresses are the same.
abbrev pub in_region : ℕ → Bool
in_region address = leb 0x10000000 address && ltb address 0x14000000

module _ (U : UsbEnv) where
  open U use {World, bulk_transfer, ctrl_transfer}

  abbrev pub Sent : Type 0
  Sent = Option (ℤ × Buffer × World)

  -- `IntrBulkMsg` for a bulk transfer of 16 bits of length from the buffer at an address
  unfoldable pub write_bulk_msg : ℕ → ℕ → ℕ → ℕ → Buffer → World → Sent
  write_bulk_msg address dev_id endpoint len b w =
      let n = len % 2 ^ 16 in
      let (ret, b', w') = bulk_transfer dev_id endpoint n b w in
      if not (in_region address)
      then none
      else if not (aligned address 32)
      then some (UsbError.invalid, b, w)
      else if n == 0
      then some (UsbError.invalid, b, w)
      else if eq_ℤ ret (pos n)
      then some (UsbError.ok, b', w')
      else if not (is_neg ret)
      then some (UsbError.short_transfer, b', w')
      else some (ret, b', w')

  -- `CtrlMsg`, whose result counts 8 bytes of the request
  unfoldable pub write_ctrl_msg : ℕ → ℕ → ℕ → ℕ → ℕ → ℕ → ℕ → Buffer → World → Sent
  write_ctrl_msg address dev_id request_type request value index len b w =
      let n = len % 2 ^ 16 in
      let (ret, b', w') = ctrl_transfer dev_id request_type request value index n b w in
      if not (in_region address)
      then none
      else if not (aligned address 32)
      then some (UsbError.invalid, b, w)
      else if n == 0
      then some (UsbError.invalid, b, w)
      else if eq_ℤ ret (pos (n + 8))
      then some (UsbError.ok, b', w')
      else if not (is_neg ret)
      then some (UsbError.short_transfer, b', w')
      else some (ret, b', w')
