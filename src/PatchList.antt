-- ===== src/PatchList.antt =====
-- channel/Patch/PatchList.cpp and PatchList.hpp: memory patches for a game, collected into a list
-- and then written over the game's memory.
pub mod Apply
pub mod Branch
mod Tests
use saoirse.Prelude.{
  ℕ, ◌+◌, ◌-◌, ◌≤◌, ◌%◌, ◌^◌, Bool, true, false, ◌&&◌, ◌||◌, Option, none, some, List, [], ◌∷◌,
  ◌++◌, ltb, leb, ◌==◌, if◌then◌else◌, add32, sub32, be32, length, get_or,
}

-- `PatchList::PatchError`
pub data PatchError : Type 0 where
  ok memory_out_of_bounds empty_patch : PatchError

-- `PatchList::MemoryPatch`
pub record MemoryPatch : Type 0 where
  pub address : ℕ
  pub bytes : List ℕ

-- `IsValidMemPatchRegion`
pub is_valid_mem_patch_region : ℕ → ℕ → Bool
is_valid_mem_patch_region start end =
    if leb end start
    then false
    else if leb 0x80000100 start && leb end 0x80900000
    then true
    else false

-- `ImportMemoryPatch`; the two pointers are the bytes between them, and `m_patches` is the state
pub import_memory_patch : ℕ → List ℕ → List MemoryPatch → PatchError × List MemoryPatch
import_memory_patch address bytes patches =
    if length bytes == 0
    then (empty_patch, patches)
    else if is_valid_mem_patch_region address (add32 address (length bytes))
    then (ok, patches ++ (record { address = address; bytes = bytes } ∷ []))
    else (memory_out_of_bounds, patches)

-- `ImportPoke32`: the four bytes of `value` as the (big-endian) processor holds it
pub import_poke32 : ℕ → ℕ → List MemoryPatch → PatchError × List MemoryPatch
import_poke32 address value patches = import_memory_patch address (be32 value) patches

-- the value that `ImportPokeBranch` pokes: `((dest - src) & 0x03FFFFFF) | 0x48000000`, whose two
-- parts share no bit
pub branch_value : ℕ → ℕ → ℕ
branch_value src dest = sub32 dest src % 2 ^ 26 + 0x48000000

-- `ImportPokeBranch`
pub import_poke_branch : ℕ → ℕ → List MemoryPatch → PatchError × List MemoryPatch
import_poke_branch src dest patches = import_poke32 src (branch_value src dest) patches

-- The game's memory, a byte for each address.
abbrev pub Memory : Type 0
Memory = ℕ → ℕ

-- `memcpy` to an address
pub write_bytes : Memory → ℕ → List ℕ → Memory
write_bytes m a bytes x =
    if leb a x && ltb x (a + length bytes) then get_or bytes (x - a) 0 else m x

-- `CopyToGameMem`; `none` is a failed assertion
pub copy_to_game_mem : ℕ → List ℕ → Memory → Option Memory
copy_to_game_mem address bytes m =
    if is_valid_mem_patch_region address (add32 address (length bytes))
    then some (write_bytes m address bytes)
    else none

-- the loop of `ApplyPatches`
pub copy_patches : List MemoryPatch → Memory → Option Memory
copy_patches [] m = some m
copy_patches (p ∷ ps) m = elim (copy_to_game_mem p.address p.bytes m) [
  | none ↦ none
  | some m' ↦ copy_patches ps m'
]

abbrev pub exit_stub : ℕ
exit_stub = 0x80001800

abbrev pub exit_stub_end : ℕ
exit_stub_end = 0x80003000

-- `ApplyPatches`. The first argument is libogc's `DCZeroRange`; interrupts and the flush of the
-- cache change no byte. It returns `PatchError::OK` whenever it returns.
pub apply_patches :
    (ℕ → ℕ → Memory → Memory) → List MemoryPatch → Memory → Option (PatchError × Memory)
apply_patches zero_range patches m =
    elim (copy_patches patches (zero_range exit_stub (exit_stub_end - exit_stub) m)) [
      | none ↦ none
      | some m' ↦ some (ok, m')
    ]
