-- ===== src/EmuDi/Iso.antt =====
-- ios/EmuDI/ISO.cpp, a disc image in one or two files: reads of its bytes, and of the decrypted data
-- of a partition through a cache of one block.
pub mod Cache
pub mod Offsets
pub mod Blocks
pub mod Partition
pub mod Edges
mod Tests
use saoirse.Prelude.{
  ℕ, zero, suc, ◌+◌, ◌-◌, ◌*◌, ◌/◌, ◌%◌, ◌^◌, ◌&&◌, ◌||◌, not, Bool, true, false, Option, none,
  some, List, [], ◌∷◌, ltb, leb, ◌==◌, if◌then◌else◌, ℤ, pos, eq_ℤ, length, get_or, add32, u32,
  aligned, min,
}
pub use saoirse.Prelude.Buffers.{copy, shift}
use saoirse.EmuFs.Env.{FResult, is_ok}
use saoirse.EmuFs.IosError
use saoirse.EmuDi.DiError
use saoirse.EmuDi.Table.{Buffer, blit, word, double_word}
use saoirse.EmuDi.Disc.{tmd_fixed_size}

-- What the image calls: FatFs on its files, AES, and the check of a ticket. The files keep their
-- positions in the world. `stack` is what an uninitialised buffer holds.
pub record IsoEnv : Type 1 where
  pub World : Type 0
  pub f_lseek : ℕ → ℕ → World → FResult × World
  pub f_read : ℕ → ℕ → World → FResult × List ℕ × World
  pub decrypt : Buffer → Buffer → Buffer → ℕ → World → ℤ × Buffer × World
  pub di_verify : ℕ → Buffer → World → ℤ × World
  pub stack : Buffer

-- The members of `ISO` that the operations use.
pub record IsoState : Type 0 where
  pub num_parts : ℕ
  pub part_size : ℕ
  pub last_part_size : ℕ
  pub disk_id : Buffer
  pub read_disk_id_called : Bool
  pub partition : Buffer
  pub partition_offset : ℕ
  pub partition_opened : Bool
  pub title_key : Buffer
  pub data_block : Buffer
  pub data_block_decrypted : Buffer
  pub last_read_block : ℕ

abbrev pub block_size : ℕ
block_size = 0x8000

abbrev pub block_header_size : ℕ
block_header_size = 0x400

abbrev pub block_data_size : ℕ
block_data_size = 0x7C00

-- the offsets in `DI::Partition` and its `ES::Ticket`, and the size of `ES::TMDFixed<1>`
abbrev pub ticket_title_key : ℕ
ticket_title_key = 0x1BF

abbrev pub ticket_title_id : ℕ
ticket_title_id = 0x1DC

abbrev pub partition_size : ℕ
partition_size = 0x2A4 + 28

abbrev pub tmd_byte_length : Buffer → ℕ
tmd_byte_length p = word p 0x2A4

abbrev pub tmd_word_offset : Buffer → ℕ
tmd_word_offset p = word p 0x2A8

abbrev pub data_word_offset : Buffer → ℕ
data_word_offset p = word p 0x2B8

abbrev tmd_one_size : ℕ
tmd_one_size = 0x1E4 + 0x24

module _ (E : IsoEnv) where
  open E use {World, f_lseek, f_read, decrypt, di_verify, stack}

  -- The loop of `ReadRaw`, with rounds for the parts that are left. The buffer does not move on from
  -- one part to the next.
  unfoldable pub read_parts :
      IsoState → ℕ → ℕ → ℕ → ℕ → ℕ → Buffer → World → Option (Bool × Buffer × World)
  read_parts s zero part part_end offset len b w = none
  read_parts s (suc rounds) part part_end offset len b w =
      let n = if part == part_end then len else u32 (s.part_size - offset) in
      let (sought, w1) = f_lseek part offset w in
      let (fret, got, w2) = f_read part n w1 in
      let b' = blit b 0 got in
      let rest = read_parts s rounds (part + 1) part_end 0 (len - n) b' w2 in
      if len == 0
      then some (true, b, w)
      else if leb 2 part
      then some (false, b, w)
      else if not (is_ok sought)
      then some (false, b, w1)
      else if not (is_ok fret)
      then some (false, b', w2)
      else rest

  -- `ReadRaw`; four rounds are enough for the two parts that it knows
  unfoldable pub read_raw : IsoState → ℕ → ℕ → Buffer → World → Option (Bool × Buffer × World)
  read_raw s word_offset len b w =
      let real_offset = word_offset * 4 in
      let part = u32 (real_offset / s.part_size) in
      let part_end = u32 ((real_offset + len - 1) / s.part_size) in
      let part_offset = real_offset % s.part_size in
      if len == 0
      then some (false, b, w)
      else if leb s.num_parts part_end
      then some (false, b, w)
      else if part_end == s.num_parts - 1 && leb s.last_part_size (part_offset + len)
      then some (false, b, w)
      else read_parts s 4 part part_end part_offset len b w

  abbrev pub Answer : Type 0
  Answer = Option (Bool × IsoState × World)

  -- `ReadAndDecryptBlock`
  unfoldable pub read_and_decrypt_block : ℕ → IsoState → World → Answer
  read_and_decrypt_block word_offset s w =
      let s1 = record s { last_read_block = word_offset } in
      if s.last_read_block == word_offset
      then some (true, s, w)
      else elim (read_raw s word_offset block_size s.data_block w) [
        | none ↦ none
        | some (fine, b, w1) ↦
            let s2 = record s1 { data_block = b } in
            let (ret, plain, w2) =
              decrypt s.title_key (shift b 0x3D0) (shift b block_header_size) block_data_size w1 in
            let s3 = record s2 {
              data_block_decrypted = copy s.data_block_decrypted 0 plain 0 block_data_size;
            } in
            if not fine
            then some (false, s2, w1)
            else if eq_ℤ ret IosError.ok
            then some (true, s3, w2)
            else none
      ]

  abbrev pub Read : Type 0
  Read = Option (Bool × Buffer × IsoState × World)

  -- One step of `ReadFromPartition`: `n` bytes from `from` on of a block, then what follows.
  unfoldable pub copy_block :
      ℕ → ℕ → ℕ → ℕ → Buffer → IsoState → World → (Buffer → IsoState → World → Read) → Read
  copy_block block from n at b s w go = elim (read_and_decrypt_block block s w) [
    | none ↦ none
    | some (fine, s', w') ↦
        if fine
        then go (copy b at s'.data_block_decrypted from n) s' w'
        else some (false, b, s', w')
  ]

  -- The loop over whole blocks and the last short one, with rounds for the blocks that are left.
  unfoldable pub read_blocks : ℕ → ℕ → ℕ → ℕ → Buffer → IsoState → World → Read
  read_blocks zero block at len b s w = none
  read_blocks (suc rounds) block at len b s w =
      let full = copy_block block 0 block_data_size at b s w (
        read_blocks rounds (add32 block (block_size / 4)) (at + block_data_size)
          (len - block_data_size)) in
      let last = copy_block block 0 len at b s w (λ b' s' w'. some (true, b', s', w')) in
      if leb block_data_size len then full else if len == 0 then some (true, b, s, w) else last

  -- `dataStart`
  abbrev pub data_start : IsoState → ℕ
  data_start s = add32 s.partition_offset (data_word_offset s.partition)

  -- The part of `ReadFromPartition` that follows its tests.
  unfoldable pub read_data : ℕ → ℕ → Buffer → IsoState → World → Read
  read_data word_offset len b s w =
      let block_words = block_data_size / 4 in
      let block = add32 (data_start s) (u32 (word_offset / block_words * (block_size / 4))) in
      let from = word_offset % block_words * 4 in
      let n = min len (block_data_size - from) in
      let rounds = len / block_data_size + 1 in
      if word_offset % block_words == 0
      then read_blocks rounds block 0 len b s w
      else copy_block block from n 0 b s w
          (read_blocks rounds (add32 block (block_size / 4)) n (len - n))

  -- `ReadFromPartition`
  unfoldable pub read_from_partition : ℕ → ℕ → Buffer → IsoState → World → Read
  read_from_partition word_offset len b s w =
      if not s.partition_opened
      then some (false, b, s, w)
      else if not (aligned len 32)
      then some (false, b, s, w)
      else if len == 0
      then some (true, b, s, w)
      else read_data word_offset len b s w

  -- `ReadDiskID`
  unfoldable pub read_disk_id : Buffer → IsoState → World → Read
  read_disk_id out s w = elim (read_raw s 0 32 s.disk_id w) [
    | none ↦ none
    | some (fine, b, w') ↦
        if fine
        then some
            (true, copy out 0 b 0 32, record s { disk_id = b; read_disk_id_called = true }, w')
        else some (false, out, record s { disk_id = b }, w')
  ]

  abbrev pub Opened : Type 0
  Opened = Option (ℤ × Buffer × IsoState × World)

  -- `ReadTMD`
  unfoldable pub read_tmd : Buffer → IsoState → World → Opened
  read_tmd out s w =
      let len = tmd_byte_length s.partition in
      let offset = tmd_word_offset s.partition in
      if ltb tmd_fixed_size len || ltb len tmd_one_size
      then some (DiError.security, out, s, w)
      else if offset == 0
      then some (DiError.security, out, s, w)
      else elim (read_raw s (add32 s.partition_offset offset) len out w) [
        | none ↦ none
        | some (fine, b, w') ↦ some ((if fine then DiError.ok else DiError.drive), b, s, w')
      ]

  -- the key that title keys are encrypted with
  abbrev common_key : Buffer
  common_key x =
      get_or
        (0xeb ∷ 0xe4 ∷ 0x2a ∷ 0x22 ∷ 0x5e ∷ 0x85 ∷ 0x93 ∷ 0xe4 ∷ 0x48 ∷ 0xd9 ∷ 0xc5 ∷ 0x45 ∷ 0x73
          ∷ 0x81 ∷ 0xaa ∷ 0xf7 ∷ [])
        x 0

  -- The end of `OpenPartition`: the ticket is verified, and its title key decrypted and kept.
  unfoldable pub take_title_key : Buffer → IsoState → World → Opened
  take_title_key out s w =
      let (es, w1) = di_verify (double_word s.partition ticket_title_id) s.partition w in
      let iv = copy (λ x. 0) 0 s.partition ticket_title_id 8 in
      let encrypted = copy stack 0 s.partition ticket_title_key 16 in
      let (ret, key, w2) = decrypt common_key iv encrypted 32 w1 in
      let s' = record s { title_key = copy s.title_key 0 key 0 16; partition_opened = true } in
      if not (eq_ℤ es (pos 0))
      then some (DiError.verify, out, s, w1)
      else if eq_ℤ ret IosError.ok
      then some (DiError.ok, out, s', w2)
      else none

  -- `OpenPartition`
  unfoldable pub open_partition : ℕ → Buffer → IsoState → World → Opened
  open_partition word_offset out s w =
      let s1 = record s { partition_offset = word_offset } in
      if s.partition_opened
      then some (DiError.bad_argument, out, s, w)
      else if not s.read_disk_id_called
      then some (DiError.bad_argument, out, s, w)
      else elim (read_raw s1 word_offset partition_size s.partition w) [
        | none ↦ none
        | some (fine, p, w1) ↦
            let s2 = record s1 { partition = p } in
            if not fine then some (DiError.drive, out, s2, w1) else elim (read_tmd out s2 w1) [
              | none ↦ none
              | some (r, out', s3, w2) ↦
                  if eq_ℤ r DiError.ok then take_title_key out' s3 w2 else some (r, out', s3, w2)
            ]
      ]
