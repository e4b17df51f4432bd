-- ===== src/PatchList/Branch.antt =====
-- The instruction that `ImportPokeBranch` writes, read back as the processor does.
use saoirse.Prelude.{
  ℕ, ◌+◌, ◌-◌, ◌*◌, ◌/◌, ◌%◌, ◌<◌, ◌^◌, ◌≡◌, arith, List, [], ◌∷◌, ltb, if◌then◌else◌, add32, be32,
}
use saoirse.PatchList.{branch_value}

-- The word that four bytes of memory hold.
unfoldable pub word_of : List ℕ → ℕ
word_of [] = 0
word_of (a ∷ []) = 0
word_of (a ∷ b ∷ []) = 0
word_of (a ∷ b ∷ c ∷ []) = 0
word_of (a ∷ b ∷ c ∷ d ∷ _) = a * 2 ^ 24 + b * 2 ^ 16 + c * 2 ^ 8 + d

-- A PowerPC I-form instruction word: the opcode, and for a branch (18) the target, with the flags
-- AA (the offset is absolute) and LK (the return address is saved).
unfoldable pub opcode : ℕ → ℕ
opcode v = v / 2 ^ 26

unfoldable pub flags : ℕ → ℕ
flags v = v % 4

unfoldable pub branch_target : ℕ → ℕ → ℕ
branch_target src v =
    let li = v % 2 ^ 26 - v % 4 in
    if ltb li (2 ^ 25) then add32 src li else add32 src (2 ^ 32 - 2 ^ 26 + li)

-- For word-aligned 32-bit addresses less than 2^25 bytes apart, the four bytes that
-- `ImportPokeBranch` pokes at `src` are a relative branch to `dest` that does not link.
pub branch_value_decodes :
    (src dest : ℕ)
    → src < 2 ^ 32
    → dest < 2 ^ 32
    → src % 4 ≡ 0
    → dest % 4 ≡ 0
    → dest < src + 2 ^ 25
    → src < dest + 2 ^ 25
    → let v = word_of (be32 (branch_value src dest)) in
      (opcode v ≡ 18) × (flags v ≡ 0) × (branch_target src v ≡ dest)
unfolding branch_value word_of opcode flags branch_target
branch_value_decodes src dest hs hd ps pd up down = (omega arith, omega arith, ground arith)
