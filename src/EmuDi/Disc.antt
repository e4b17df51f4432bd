-- ===== src/EmuDi/Disc.antt =====
-- ios/EmuDI/EmuDI.cpp, the commands of the emulated drive, over a virtual disc.
use saoirse.Prelude.{
  ℕ, ◌+◌, ◌*◌, ◌/◌, Bool, not, ◌&&◌, ◌||◌, List, [], ltb, leb, ◌==◌, if◌then◌else◌, ℤ, length,
  add32, aligned, be32, replicate, ◌++◌, ◌∷◌, get_or,
}
use saoirse.EmuDi.DiError
use saoirse.EmuDi.DiIoctl
use saoirse.EmuDi.Table.{DiEnv, Vector, Buffer, word}

-- `DVDCommand`
pub record DvdCommand : Type 0 where
  pub cmd : ℕ
  pub args : ℕ → ℕ

abbrev pub command_size : ℕ
command_size = 32

-- the `DVDCommand` in an input buffer
abbrev pub parse_command : List ℕ → DvdCommand
parse_command input =
    let b : Buffer = λ x. get_or input x 0 in record { cmd = b 0; args = λ k. word b (4 + 4 * k) }

-- sizes of the structs that a request fills
abbrev pub drive_info_size : ℕ
drive_info_size = 32

abbrev pub ticket_size : ℕ
ticket_size = 0x2A4

abbrev pub tmd_fixed_size : ℕ
tmd_fixed_size = 0x1E4 + 512 * 0x24

-- `WriteOutput`
unfoldable pub write_output : ℕ → List ℕ → ℤ × List ℕ
write_output out_len bytes =
    if ltb out_len (length bytes) then (DiError.security, []) else (DiError.ok, bytes)

abbrev bca : List ℕ
bca = replicate 0x33 0 ++ (1 ∷ replicate 12 0)

module _ (E : DiEnv) where
  open E use {World}

  -- A result, the bytes written from the start of the output buffer, and what changed.
  abbrev pub Done : Type 0
  Done = ℤ × List ℕ × World

  abbrev done : ℤ × List ℕ → World → Done
  done (r, out) w = (r, out, w)

  -- a call of the disc that returns whether it succeeded
  unfoldable pub drive_done : Bool × List ℕ × World → Done
  drive_done (fine, out, w) = (if fine then DiError.ok else DiError.drive, out, w)

  -- The case `Read` of `EmuIoctl`.
  unfoldable pub emu_read : DvdCommand → ℕ → World → Done
  emu_read block out_len w =
      if not (block.args 0 == out_len)
      then (DiError.security, [], w)
      else drive_done (E.read_from_partition (block.args 1) (block.args 0) w)

  -- The case `ReadDiskID`.
  unfoldable pub emu_read_disk_id : ℕ → World → Done
  emu_read_disk_id out_len w =
      let (fine, id, w') = E.read_disk_id w in
      if fine then done (write_output out_len id) w' else (DiError.drive, [], w')

  -- The case `UnencryptedRead`, with the offset at which a read ends.
  unfoldable pub word_offset_end : ℕ → ℕ → ℕ
  word_offset_end offset len = add32 offset (add32 len 3 / 4)

  unfoldable pub emu_unencrypted_read : DvdCommand → ℕ → World → Done
  emu_unencrypted_read block out_len w =
      let len = block.args 0 in
      let offset = block.args 1 in
      let end = word_offset_end offset len in
      if not (len == out_len)
      then (DiError.security, [], w)
      else if leb 0x460A0000 offset && leb end 0x460A0008
      then (DiError.drive, [], w)
      else if leb 0x7ED40000 offset && leb end 0x7ED40008
      then (DiError.drive, [], w)
      else if ltb 0x14000 end
      then (DiError.security, [], w)
      else drive_done (E.unencrypted_read offset len w)

  -- `EmuIoctl`; `out` is the address of the output buffer.
  unfoldable pub emu_ioctl : DvdCommand → ℕ → ℕ → ℕ → World → Done
  emu_ioctl block cmd out out_len w =
      if cmd == DiIoctl.reset || cmd == DiIoctl.clear_cover_interrupt
      then (DiError.ok, [], w)
      else if cmd == DiIoctl.inquiry
      then if not (out_len == drive_info_size) then (DiError.security, [], w) else E.inquiry w
      else if cmd == DiIoctl.get_status_register
      then done (write_output out_len (be32 0)) w
      else if cmd == DiIoctl.read
      then emu_read block out_len w
      else if cmd == DiIoctl.read_disk_id
      then emu_read_disk_id out_len w
      else if cmd == DiIoctl.unencrypted_read
      then emu_unencrypted_read block out_len w
      else if cmd == DiIoctl.read_disk_bca
      then if not (aligned out 32)
        then (DiError.security, [], w)
        else if ltb out_len 0x40
        then (DiError.security, [], w)
        else done (write_output out_len bca) w
      else if cmd == DiIoctl.get_control_register
      then done (write_output out_len (be32 0)) w
      else if cmd == DiIoctl.get_cover_register
      then done (write_output out_len (be32 (if E.is_inserted w then 0 else 1))) w
      else (DiError.security, [], w)

  -- `EmuIoctlv`; the bytes go to the fourth vector.
  unfoldable pub emu_ioctlv : DvdCommand → ℕ → ℕ → ℕ → (ℕ → Vector) → World → Done
  emu_ioctlv block cmd in_count io_count vec w =
      let ticket_len = (vec 1).len in
      let tmd_len = (vec 3).len in
      let es_error_len = (vec 4).len in
      if not (cmd == DiIoctl.open_partition)
      then (DiError.security, [], w)
      else if not (in_count == 3) || not (io_count == 2)
      then (DiError.security, [], w)
      else if not (ticket_len == 0) && ltb ticket_len ticket_size
      then (DiError.security, [], w)
      else if ltb tmd_len tmd_fixed_size
      then (DiError.security, [], w)
      else if ltb es_error_len 4
      then (DiError.security, [], w)
      else E.open_partition (block.args 0) w

  -- `RealRead`; the address of the output buffer plays no part in a read.
  unfoldable pub real_read : Bool → ℕ → ℕ → World → Done
  real_read virtual offset len w =
      let block : DvdCommand = record {
        cmd = DiIoctl.read;
        args = λ k. if k == 0 then len else offset;
      } in
      if virtual then emu_ioctl block DiIoctl.read 0 len w else E.drive_read len offset w
