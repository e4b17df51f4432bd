-- ===== src/EmuDi/Iso/Tests.antt =====
-- Runs on an image of one file of a MiB, with a cipher that changes nothing.
use saoirse.Prelude.{ℕ, zero, suc, ◌+◌, ◌%◌, ◌≡◌, true, false, some, List, [], ◌∷◌, refl, pos}
use saoirse.EmuFs.Env.{fr_ok}
use saoirse.EmuDi.Table.{Buffer}
use saoirse.EmuDi.Iso.{IsoEnv, IsoState, read_raw, block_size}

abbrev image : Buffer
image x = x % 251

-- `n` bytes of the image from `o` on
abbrev span : ℕ → ℕ → List ℕ
span zero o = []
span (suc n) o = image o ∷ span n (suc o)

-- The world is the position of the file.
abbrev demo : IsoEnv
demo = record {
  World = ℕ;
  f_lseek = λ p o w. (fr_ok, o);
  f_read = λ p n w. (fr_ok, span n w, w + n);
  decrypt = λ key iv b n w. (pos 0, b, w);
  di_verify = λ id p w. (pos 0, w);
  stack = λ x. 0;
}

abbrev zeroes : Buffer
zeroes x = 0

abbrev opened : IsoState
opened = record {
  num_parts = 1;
  part_size = 0x100000;
  last_part_size = 0x100000;
  disk_id = zeroes;
  read_disk_id_called = true;
  partition = zeroes;
  partition_offset = 0;
  partition_opened = true;
  title_key = zeroes;
  data_block = zeroes;
  data_block_decrypted = zeroes;
  last_read_block = 1;
}

-- A block past the end.
past_end : read_raw demo opened 0x40000 block_size zeroes 0 ≡ some (false, zeroes, 0)
unfolding read_raw
past_end = refl
