-- ===== src/PatchList/Apply.antt =====
-- What importing and applying memory patches does: which patches are accepted, and which bytes of
-- the game's memory change.
use saoirse.Prelude.{
  ap, ◌∙◌, ℕ, ◌+◌, ◌-◌, ◌≤◌, ◌<◌, ◌^◌, ◌≡◌, refl, ◌↔◌, ◌⊎◌, true, ◌&&◌, Option, none, some, List,
  [], ◌∷◌, ◌++◌, arith, ltb, leb, if◌then◌else◌, inl, inr, add32, length, get_or, All, All-append,
}
use saoirse.PatchList.{
  ok, MemoryPatch, Memory, exit_stub, exit_stub_end, is_valid_mem_patch_region, import_memory_patch,
  import_poke32, import_poke_branch, write_bytes, copy_to_game_mem, copy_patches, apply_patches,
}

-- A patch that lies in the game's memory; its sum of address and length does not wrap.
pub record IsInGame (p : MemoryPatch) : Type 0 where
  pub nonempty : 0 < length p.bytes
  pub low : 0x80000100 ≤ p.address
  pub high : p.address + length p.bytes ≤ 0x80900000

-- The region test with the wrapping sum is the exact test.
region_exact :
    (a n : ℕ)
    → a < 2 ^ 32
    → n < 2 ^ 32
    → (is_valid_mem_patch_region a (add32 a n) ≡ true)
      ↔ ((0 < n) × (0x80000100 ≤ a) × (a + n ≤ 0x80900000))
unfolding is_valid_mem_patch_region
region_exact a n ha hn = (λ h. ground arith, λ h. ground arith)

-- For a 32-bit address and length, `ImportMemoryPatch` answers OK exactly for a patch that is not
-- empty and lies in the game's memory; it then appends that patch, and otherwise it changes nothing.
pub import_memory_patch_exact :
    (address : ℕ) (bytes : List ℕ) (patches : List MemoryPatch)
    → address < 2 ^ 32
    → length bytes < 2 ^ 32
    → let p : MemoryPatch = record { address = address; bytes = bytes } in
      let r = import_memory_patch address bytes patches in
      ((r.0 ≡ ok) ↔ IsInGame p)
      × ((r ≡ (ok, patches ++ (p ∷ []))) ⊎ ((r.0 ≡ ok → ⊥) × (r.1 ≡ patches)))
unfolding import_memory_patch
import_memory_patch_exact address bytes patches ha hn =
    ((λ h. ground (arith, exact), λ h. ground (arith, exact)), ground arith)
  where
    exact :
        (is_valid_mem_patch_region address (add32 address (length bytes)) ≡ true)
        ↔ ((0 < length bytes) × (0x80000100 ≤ address) × (address + length bytes ≤ 0x80900000))
    exact = region_exact address (length bytes) ha hn

-- The calls that fill a patch list.
pub data Import : Type 0 where
  memory : ℕ → List ℕ → Import
  poke32 : ℕ → ℕ → Import
  branch : ℕ → ℕ → Import

-- Arguments that fit the machine's words.
abbrev pub IsWord : Import → Type 0
IsWord (memory address bytes) = (address < 2 ^ 32) × (length bytes < 2 ^ 32)
IsWord (poke32 address value) = address < 2 ^ 32
IsWord (branch src dest) = src < 2 ^ 32

unfoldable pub run_import : Import → List MemoryPatch → List MemoryPatch
run_import (memory address bytes) patches = (import_memory_patch address bytes patches).1
run_import (poke32 address value) patches = (import_poke32 address value patches).1
run_import (branch src dest) patches = (import_poke_branch src dest patches).1

unfoldable pub run_imports : List Import → List MemoryPatch → List MemoryPatch
run_imports [] patches = patches
run_imports (i ∷ is) patches = run_imports is (run_import i patches)

import_memory_patch-IsInGame :
    (address : ℕ) (bytes : List ℕ) (patches : List MemoryPatch)
    → address < 2 ^ 32
    → length bytes < 2 ^ 32
    → All IsInGame patches
    → All IsInGame (import_memory_patch address bytes patches).1
import_memory_patch-IsInGame address bytes patches ha hn h =
    let (exact, cases) = import_memory_patch_exact address bytes patches ha hn in
    elim cases [
      | inl e ↦ rw e (All-append IsInGame patches _ h (exact.0 (ap (λ r. r.0) e), tt))
      | inr e ↦ rw (e.1) h
    ]

run_import-IsInGame :
    (i : Import) (patches : List MemoryPatch)
    → IsWord i
    → All IsInGame patches
    → All IsInGame (run_import i patches)
unfolding run_import import_poke32 import_poke_branch
run_import-IsInGame (memory a bs) ps w h = import_memory_patch-IsInGame a bs ps w.0 w.1 h
run_import-IsInGame (poke32 a v) ps w h = import_memory_patch-IsInGame a _ ps w (omega arith) h
run_import-IsInGame (branch s d) ps w h = import_memory_patch-IsInGame s _ ps w (omega arith) h

pub run_imports-IsInGame :
    (is : List Import) (patches : List MemoryPatch)
    → All IsWord is
    → All IsInGame patches
    → All IsInGame (run_imports is patches)
unfolding run_imports
run_imports-IsInGame [] ps w h = h
run_imports-IsInGame (i ∷ is) ps w h =
    run_imports-IsInGame is (run_import i ps) w.1 (run_import-IsInGame i ps w.0 h)

-- The byte that the last patch over an address gives it, if one does.
unfoldable pub last_write : List MemoryPatch → ℕ → Option ℕ
last_write [] x = none
last_write (p ∷ ps) x = elim (last_write ps x) [
  | some b ↦ some b
  | none ↦
      if leb p.address x && ltb x (p.address + length p.bytes)
      then some (get_or p.bytes (x - p.address) 0)
      else none
]

abbrev pub or_else : Option ℕ → ℕ → ℕ
or_else none d = d
or_else (some b) d = b

copy_patches_exact :
    (ps : List MemoryPatch) (m : Memory)
    → All IsInGame ps
    → (m' : Memory) × (copy_patches ps m ≡ some m')
      × ((x : ℕ) → m' x ≡ or_else (last_write ps x) (m x))
unfolding copy_patches last_write
copy_patches_exact [] m h = (m, refl, λ x. refl)
copy_patches_exact (p ∷ ps) m h =
    let (m', runs, reads) = copy_patches_exact ps (write_bytes m p.address p.bytes) h.1 in
    (m', rw (copied, copy_patches) runs, λ x. reads x ∙ layer x)
  where
    copied : copy_to_game_mem p.address p.bytes m ≡ some (write_bytes m p.address p.bytes)
    copied =
        unfold copy_to_game_mem in
        rw (
          (region_exact p.address (length p.bytes) (omega arith) (omega arith)).1
            (h.0.nonempty, h.0.low, h.0.high))

    layer :
        (x : ℕ)
        → or_else (last_write ps x) (write_bytes m p.address p.bytes x)
          ≡ or_else (last_write (p ∷ ps) x) (m x)
    layer x = unfold write_bytes in ground arith

last_write_outside :
    (ps : List MemoryPatch) (x : ℕ)
    → All IsInGame ps
    → (x < 0x80000100) ⊎ (0x80900000 ≤ x)
    → last_write ps x ≡ none
unfolding last_write
last_write_outside [] x h out = refl
last_write_outside (p ∷ ps) x h out = ground (arith, last_write_outside ps x h.1 out)

module _ (zero_range : ℕ → ℕ → Memory → Memory)
    (zeroes : (a n : ℕ) (m : Memory) (x : ℕ)
      → zero_range a n m x ≡ (if leb a x && ltb x (a + n) then 0 else m x)) where
  -- Where `DCZeroRange` zeroes its range: after any calls that fill an empty list, with arguments
  -- of the machine's size, `ApplyPatches` passes its assertions and returns OK; each byte of memory
  -- is then the one that the last patch over it gives, else 0 in the range of the exit stub, else
  -- what it was; and no byte outside 0x80000100 .. 0x80900000 changes.
  pub apply_patches_exact :
      (is : List Import) (m : Memory)
      → All IsWord is
      → let ps = run_imports is [] in
        (m' : Memory) × (apply_patches zero_range ps m ≡ some (ok, m'))
        × ((x : ℕ)
            → m' x
              ≡ or_else
                  (last_write ps x)
                  (if leb exit_stub x && ltb x exit_stub_end then 0 else m x))
        × ((x : ℕ) → (x < 0x80000100) ⊎ (0x80900000 ≤ x) → m' x ≡ m x)
  unfolding apply_patches
  apply_patches_exact is m w =
      let ps = run_imports is [] in
      let valid = run_imports-IsInGame is [] w tt in
      let z = zero_range exit_stub (exit_stub_end - exit_stub) m in
      let (m', runs, reads) = copy_patches_exact ps z valid in
      (
        m',
        rw (runs, apply_patches),
        λ x. ground (arith, reads x, zeroes exit_stub (exit_stub_end - exit_stub) m x),
        λ x out. ground (
          arith,
          reads x,
          zeroes exit_stub (exit_stub_end - exit_stub) m x,
          last_write_outside ps x valid out,
        ),
      )
