-- ===== src/EmuDi/Table.antt =====
-- ios/EmuDI/EmuDI.cpp, the table of disc patches and its binary search, with the disc and the volume
-- that reads go to.
use saoirse.Prelude.{
  ℕ, zero, suc, ◌+◌, ◌-◌, ◌*◌, ◌/◌, Bool, List, ltb, ◌==◌, if◌then◌else◌, add32, ℤ,
}
pub use saoirse.Prelude.Buffers.{Buffer, blit, fill_zero, word, double_word}
use saoirse.EmuFs.Env.{FResult}

-- `DVDPatch` (common/DVD/EmuDI.hpp); offsets and lengths on the disc are in words of four bytes
pub record DvdPatch : Type 0 where
  pub disc_offset : ℕ
  pub disc_length : ℕ
  pub start_cluster : ℕ
  pub cur_cluster : ℕ
  pub file_offset : ℕ
  pub drv : ℕ

-- the size of a `DVDPatch` in bytes, and the entries of `DiPatches`
abbrev pub patch_size : ℕ
patch_size = 32

abbrev pub max_patches : ℕ
max_patches = 200

-- The fields of a `FIL` that `OpenPatchFile` sets.
pub record PatchFile : Type 0 where
  pub drive : ℕ
  pub sclust : ℕ
  pub fptr : ℕ
  pub clust : ℕ

-- A vector of an `ioctlv`: its bytes, where it is an input, and its length.
pub record Vector : Type 0 where
  pub bytes : List ℕ
  pub len : ℕ

-- What the requests call: FatFs on a patch file, the virtual disc (`VirtualDisc`), the driver of the
-- real drive (`DI`) and system calls. A call that fills a buffer gives the bytes from its start.
pub record DiEnv : Type 1 where
  pub World : Type 0
  pub f_lseek : ℕ → PatchFile → World → FResult × PatchFile × World
  pub f_read : ℕ → PatchFile → World → FResult × List ℕ × PatchFile × World
  pub read_from_partition : ℕ → ℕ → World → Bool × List ℕ × World
  pub unencrypted_read : ℕ → ℕ → World → Bool × List ℕ × World
  pub read_disk_id : World → Bool × List ℕ × World
  pub open_partition : ℕ → World → ℤ × List ℕ × World
  pub is_inserted : World → Bool
  pub inquiry : World → ℤ × List ℕ × World
  pub drive_read : ℕ → ℕ → World → ℤ × List ℕ × World
  pub ios_close : ℤ → World → ℤ × World
  pub ios_ioctl : ℕ → List ℕ → ℕ → World → ℤ × List ℕ × World
  pub ios_ioctlv : ℕ → ℕ → ℕ → (ℕ → Vector) → World → ℤ × (ℕ → List ℕ) × World

abbrev pub Patches : Type 0
Patches = ℕ → DvdPatch

-- The entries of `DiPatches` in its bytes.
unfoldable pub patch_at : Buffer → Patches
patch_at b k =
    let x = k * patch_size in
    record {
      disc_offset = word b x;
      disc_length = word b (x + 4);
      start_cluster = double_word b (x + 8);
      cur_cluster = double_word b (x + 16);
      file_offset = word b (x + 24);
      drv = word b (x + 28);
    }

abbrev pub patch_end : DvdPatch → ℕ
patch_end p = add32 p.disc_offset p.disc_length

-- The loop of `SearchPatch`, with rounds that bound `i`, which at least halves in each.
unfoldable pub search_loop : Patches → ℕ → ℕ → ℕ → ℕ → ℕ → ℕ
search_loop ps num offset zero j i = num
search_loop ps num offset (suc rounds) j i =
    let k = j + i / 2 in
    let p = ps k in
    let right = search_loop ps num offset rounds (k + 1) ((i - 1) / 2) in
    let left = search_loop ps num offset rounds j (i / 2) in
    if i == 0
    then num
    else if p.disc_offset == offset
    then k
    else if ltb p.disc_offset offset
    then (if ltb offset (patch_end p) then k else right)
    else left

-- `SearchPatch`
unfoldable pub search_patch : Patches → ℕ → ℕ → ℕ
search_patch ps num offset = search_loop ps num offset num 0 num

-- `OpenPatchFile`
unfoldable pub open_patch_file : DvdPatch → PatchFile
open_patch_file p = record {
  drive = p.drv;
  sclust = p.start_cluster;
  fptr = p.file_offset;
  clust = p.cur_cluster;
}
