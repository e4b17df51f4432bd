-- ===== src/PatchList/Tests.antt =====
-- Runs of the patch list on concrete patches.
use saoirse.Prelude.{
  ℕ, ◌+◌, ◌<◌, ◌≤◌, ◌≡◌, refl, ◌⊎◌, List, [], ◌∷◌, arith, leb, ltb, ◌&&◌, if◌then◌else◌, some,
}
use saoirse.PatchList.{
  ok, Memory, exit_stub, exit_stub_end, import_memory_patch, branch_value, apply_patches,
  is_valid_mem_patch_region, import_poke32, import_poke_branch,
}
use saoirse.PatchList.Apply.{
  Import, memory, poke32, branch, run_import, run_imports, last_write, or_else, apply_patches_exact,
}

abbrev zero : ℕ → ℕ → Memory → Memory
zero a n m x = if leb a x && ltb x (a + n) then 0 else m x

abbrev game : Memory
game x = 7

abbrev script : List Import
script = memory 0x80001800 (1 ∷ 2 ∷ []) ∷ branch 0x80004000 0x80001800 ∷ poke32 0x80900000 5 ∷ []

-- The last poke is out of bounds, and is dropped.
script_runs :
    run_imports script []
    ≡ record { address = 0x80001800; bytes = 1 ∷ 2 ∷ [] }
      ∷ record { address = 0x80004000; bytes = 0x4b ∷ 0xff ∷ 0xd8 ∷ 0 ∷ [] }
      ∷ []
unfolding run_imports run_import import_poke32 import_poke_branch import_memory_patch
    is_valid_mem_patch_region branch_value
script_runs = refl

apply_patches_exact_example :
    let ps = run_imports script [] in
    (m' : Memory) × (apply_patches zero ps game ≡ some (ok, m'))
    × ((x : ℕ)
        → m' x
          ≡ or_else
              (last_write ps x)
              (if leb exit_stub x && ltb x exit_stub_end then 0 else game x))
    × ((x : ℕ) → (x < 0x80000100) ⊎ (0x80900000 ≤ x) → m' x ≡ game x)
apply_patches_exact_example = apply_patches_exact zero (λ a n m x. refl) script game (omega arith)
