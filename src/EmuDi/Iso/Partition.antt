-- ===== src/EmuDi/Iso/Partition.antt =====
-- ios/EmuDI/ISO.cpp, `ReadFromPartition`: a read returns the decrypted bytes of the partition, through
-- the cache of one block.
use saoirse.Prelude.{ℕ, ◌+◌, ◌*◌, ◌/◌, ◌%◌, ◌≤◌, ◌<◌, ◌≡◌, true, some, add32, u32}
use saoirse.EmuDi.Table.{Buffer}
use saoirse.EmuDi.Iso.{IsoEnv, IsoState, Read, block_data_size}
use saoirse.EmuDi.Iso.Cache.{IsImage}
use saoirse.EmuDi.Iso.Blocks.{IsGood, IsBlock, plain}

module _ (E : IsoEnv) (image : Buffer) (h : IsImage E image) (size : ℕ) (key : Buffer) where
  open E use {World}

  -- The byte at an offset of the partition's data: that of its block, decrypted.
  abbrev pub partition_byte : ℕ → ℕ → ℕ
  partition_byte start y =
      plain E image h size key (add32 start (u32 (y / block_data_size * 0x2000)))
        (y % block_data_size)

  -- The result of a read of the partition.
  abbrev pub Reads : ℕ → ℕ → ℕ → Read E → Type 0
  Reads start offset len r =
      (b' : Buffer) × (s' : IsoState) × (w' : World) × (r ≡ some (true, b', s', w'))
      × IsGood E image h size key s'
      × ((x : ℕ) → x < len → b' x ≡ partition_byte start (offset + x))

  -- The blocks that hold the bytes from `offset` on.
  abbrev pub HoldsRange : ℕ → ℕ → ℕ → Type 0
  HoldsRange start offset len =
      (y : ℕ)
      → offset ≤ y
      → y < offset + len
      → IsBlock E image h size key (add32 start (u32 (y / block_data_size * 0x2000)))
