-- ===== src/EmuDi/Iso/Edges.antt =====
-- ios/EmuDI/ISO.cpp, where reads of an image go wrong: at its end, and after a block that failed.
use saoirse.Prelude.{
  ℕ, ◌+◌, ◌-◌, ◌*◌, ◌/◌, ◌%◌, ◌<◌, ◌≡◌, ◌≢◌, arith, true, false, some, ◌==◌, refl,
}
use native.Mathlib.Nat.{div-eq_of_lt, mod-eq_of_lt}
use saoirse.EmuDi.Table.{Buffer}
use saoirse.EmuDi.Iso.{IsoEnv, IsoState, read_raw, read_and_decrypt_block, block_size}

module _ (E : IsoEnv) where
  open E use {World}

  -- A read of 1 byte or more that ends with the last byte of an image of one file is refused, and
  -- changes nothing.
  pub read_to_end_refused :
      (s : IsoState) (word_offset len : ℕ) (b : Buffer) (w : World)
      → s.num_parts ≡ 1
      → s.last_part_size ≡ s.part_size
      → 0 < len
      → word_offset * 4 + len ≡ s.part_size
      → read_raw E s word_offset len b w ≡ some (false, b, w)
  unfolding read_raw
  read_to_end_refused s word_offset len b w one same some_bytes end =
      let first : word_offset * 4 / s.part_size ≡ 0 =
        div-eq_of_lt (omega (arith, some_bytes, end)) in
      let last : (word_offset * 4 + len - 1) / s.part_size ≡ 0 =
        div-eq_of_lt (omega (arith, some_bytes, end)) in
      let inside : word_offset * 4 % s.part_size ≡ word_offset * 4 =
        mod-eq_of_lt (omega (arith, some_bytes, end)) in
      ground (arith, first, last, inside, one, same, some_bytes, end)

  -- After a block that is not the cached one could not be read, asking for it again succeeds at
  -- once, in any world, with the decrypted bytes of the block before.
  pub failed_block_served :
      (s : IsoState) (block : ℕ) (b : Buffer) (w w1 : World)
      → s.last_read_block ≢ block
      → read_raw E s block block_size s.data_block w ≡ some (false, b, w1)
      → (s' : IsoState) × (read_and_decrypt_block E block s w ≡ some (false, s', w1))
        × ((w2 : World) → read_and_decrypt_block E block s' w2 ≡ some (true, s', w2))
        × (s'.data_block_decrypted ≡ s.data_block_decrypted)
  unfolding read_and_decrypt_block
  failed_block_served s block b w w1 other failed =
      let missed : (s.last_read_block == block) ≡ false = ground (arith, other) in
      let hit : (block == block) ≡ true = ground arith in
      (
        record s { last_read_block = block; data_block = b },
        rw (missed, failed) refl,
        λ w2. rw hit refl,
        refl,
      )
