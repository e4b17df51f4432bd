-- ===== src/Disk/Storage/Drive.antt =====
-- ios/Disk/USBStorage.cpp and USB.cpp together: sectors read from a drive.
use saoirse.Prelude.{
  ℕ, ◌+◌, ◌*◌, ◌^◌, ◌≤◌, ◌<◌, ◌≡◌, ◌∙◌, arith, refl, sym, ap, true, false, some, ltb, u32,
}
use saoirse.Prelude.Buffers.{Buffer, word, word_le}
use saoirse.Disk.Usb.{UsbEnv}
use saoirse.Disk.Storage.{
  UsbStorage, csw_size, is_good_status, scsi_transfer, sector_command, command_wrapper,
  read_sectors, scsi_read_10,
}
use saoirse.Disk.Storage.Stream.{IsStream, IsFor, asked, sent_command, scsi_transfer_streams}

-- A drive of blocks of 512 bytes: to the wrapper of a READ(10) it answers with the bytes of its image
-- from the address on, as many blocks as were asked, and a good status for the tag.
pub record IsDrive (U : UsbEnv) (dev out inward : ℕ) (image : Buffer) : Type 0 where
  pub answers : IsStream U dev out inward
  pub replies :
      (b : Buffer) (w : U.World)
      → word_le b 0 ≡ 0x43425355
      → b 0xF ≡ scsi_read_10
      → (x : ℕ) → x < (b 0x16 * 2 ^ 8 + b 0x17) * 512
      → answers.ahead (U.bulk_transfer dev out csw_size b w).2 x ≡ image (word b 0x11 * 512 + x)
  pub confirms :
      (b : Buffer) (w : U.World)
      → word_le b 0 ≡ 0x43425355
      → b 0xF ≡ scsi_read_10
      → is_good_status (word_le b 4) (λ x.
        answers.ahead
          (U.bulk_transfer dev out csw_size b w).2
          ((b 0x16 * 2 ^ 8 + b 0x17) * 512 + x))
        ≡ true

-- The command of `ReadSectors` as it is sent, and as a drive reads it.
abbrev read_command : ℕ → ℕ → UsbStorage → Buffer
read_command first count s =
    sent_command false (u32 (count * s.block_size)) s.lun (sector_command scsi_read_10 first count)
      s

read_command-decodes :
    (first count : ℕ) (s : UsbStorage)
    → first < 2 ^ 32
    → count < 2 ^ 16
    → (word_le (read_command first count s) 0 ≡ 0x43425355)
      × (word_le (read_command first count s) 4 ≡ u32 (s.tag + 1))
      × (word (read_command first count s) 0x11 ≡ first)
      × (read_command first count s 0xF ≡ scsi_read_10)
      × (read_command first count s 0x16 * 2 ^ 8 + read_command first count s 0x17 ≡ count)
unfolding command_wrapper sector_command
read_command-decodes first count s small few = (refl, omega arith, omega arith, refl, omega arith)

module _ (U : UsbEnv) (dev out inward : ℕ) (image : Buffer)
    (d : IsDrive U dev out inward image) where
  -- The sectors that a read gives.
  abbrev pub Holds : ℕ → ℕ → Buffer → Buffer → Type 0
  Holds first count bytes bytes' =
      ((x : ℕ) → x < count * 512 → bytes' x ≡ image (first * 512 + x))
      × ((x : ℕ) → count * 512 ≤ x → bytes' x ≡ bytes x)

  -- `ReadSectors` of a drive gives the bytes of its image from the first sector on.
  pub read_sectors-Holds :
      (first count : ℕ) (bytes : Buffer) (s : UsbStorage) (w : U.World)
      → IsFor U dev out inward d.answers s
      → s.block_size ≡ 512
      → s.lun ≤ 16
      → first < 2 ^ 32
      → 0 < count
      → count < 2 ^ 16
      → (bytes' : Buffer) × (s' : UsbStorage) × (w' : U.World) × (read_sectors U first count bytes s
            w
          ≡ some (true, bytes', s', w'))
        × Holds first count bytes bytes'
  unfolding read_sectors sector_command
  read_sectors-Holds first count bytes s w for blocks lun_in small many few =
      let cb = sector_command scsi_read_10 first count in
      let size = u32 (count * s.block_size) in
      let b = read_command first count s in
      let whole : size ≡ count * 512 = ap (λ n. u32 (count * n)) blocks ∙ omega (arith, few) in
      let (signature, tag, at, op, counted) = read_command-decodes first count s small few in
      let (bytes', s', w', run, inside, outside) =
        scsi_transfer_streams U dev out inward d.answers size s.lun bytes cb s w for
          (omega (arith, whole, many)) lun_in (omega arith) (omega arith) in
      let w2 = asked U dev out inward d.answers size s.lun cb s w in
      let good = d.confirms b w signature op in
      let told : size ≡ (b 0x16 * 2 ^ 8 + b 0x17) * 512 = whole ∙ ap (λ c. c * 512) (sym counted) in
      let fine : is_good_status (u32 (s.tag + 1)) (λ x. d.answers.ahead w2 (size + x)) ≡ true =
        ap (λ t. is_good_status t (λ x. d.answers.ahead w2 (size + x))) (sym tag)
        ∙ ap (λ n. is_good_status (word_le b 4) (λ x. d.answers.ahead w2 (n + x))) told
        ∙ good in
      let fits : ltb 0xFFFF count ≡ false = ground (arith, few) in
      let called : read_sectors U first count bytes s w
          ≡ scsi_transfer U false size true bytes s.lun cb s w =
        rw (read_sectors, fits) refl in
      (
        bytes',
        s',
        w',
        called ∙ run ∙ ap (λ f. some (f, bytes', s', w')) fine,
        (
          λ x lt.
              inside x (omega (arith, whole, lt))
              ∙ d.replies b w signature op x (omega (arith, counted, lt))
              ∙ ap (λ a. image (a * 512 + x)) at,
          λ x past. outside x (omega (arith, whole, past)),
        ),
      )
