-- ===== src/EmuDi/Search.antt =====
-- The binary search finds the patch that covers an offset, in a sorted table without overlaps.
use saoirse.Prelude.{
  ℕ, zero, suc, ◌+◌, ◌-◌, ◌/◌, ◌≤◌, ◌<◌, ◌^◌, ◌≡◌, ◌⊎◌, inl, inr, arith, false, refl, Bool-cases,
  ◌==◌, ltb,
}
use native.Mathlib.Decide.{dec_lt}
use native.Mathlib.Nat.{le_refl}
use saoirse.EmuDi.Table.{Patches, DvdPatch, patch_end, search_loop, search_patch}

-- Each patch has a length, ends within 32 bits, and ends no later than any later one starts.
pub record IsTable (ps : Patches) (num : ℕ) : Type 0 where
  pub nonempty : (k : ℕ) → k < num → 0 < (ps k).disc_length
  pub no_wrap : (k : ℕ) → k < num → (ps k).disc_offset + (ps k).disc_length < 2 ^ 32
  pub sorted :
      (a b : ℕ) → a < b → b < num → (ps a).disc_offset + (ps a).disc_length ≤ (ps b).disc_offset

abbrev pub Covers : DvdPatch → ℕ → Type 0
Covers p offset = (p.disc_offset ≤ offset) × (offset < p.disc_offset + p.disc_length)

module _ (ps : Patches) (num offset : ℕ) (t : IsTable ps num) where
  -- A result of the search: an index that covers the offset, or `num` where none does.
  abbrev pub IsResult : ℕ → Type 0
  IsResult r =
      ((r < num) × Covers (ps r) offset)
      ⊎ ((r ≡ num) × ((k : ℕ) → k < num → Covers (ps k) offset → ⊥))

  -- Whatever covers the offset lies among the `i` patches from `j` on.
  abbrev Within : ℕ → ℕ → Type 0
  Within j i = (k : ℕ) → k < num → Covers (ps k) offset → (j ≤ k) × (k < j + i)

  right_half :
      (j i : ℕ)
      → 0 < i
      → j + i ≤ num
      → Within j i
      → (ps (j + i / 2)).disc_offset + (ps (j + i / 2)).disc_length ≤ offset
      → Within (j + i / 2 + 1) ((i - 1) / 2)
  right_half j i pos hn within past k hk c = elim (dec_lt (j + i / 2) k) [
    | yes p ↦ omega (arith, within k hk c)
    | no p ↦ absurd (elim (dec_lt k (j + i / 2)) [
      | yes q ↦ omega (arith, t.sorted k (j + i / 2) q (omega arith))
      | no q ↦ let same : k ≡ j + i / 2 = omega arith in omega (arith, rw same at (c.1))
    ])
  ]

  left_half :
      (j i : ℕ)
      → 0 < i
      → j + i ≤ num
      → Within j i
      → offset < (ps (j + i / 2)).disc_offset
      → Within j (i / 2)
  left_half j i pos hn within below k hk c = elim (dec_lt k (j + i / 2)) [
    | yes p ↦ omega (arith, within k hk c)
    | no p ↦ absurd (elim (dec_lt (j + i / 2) k) [
      | yes q ↦ omega (arith, t.sorted (j + i / 2) k q hk)
      | no q ↦ let same : k ≡ j + i / 2 = omega arith in omega (arith, rw same at (c.0))
    ])
  ]

  search_loop-IsResult :
      (rounds j i : ℕ)
      → i ≤ rounds
      → j + i ≤ num
      → Within j i
      → IsResult (search_loop ps num offset rounds j i)
  unfolding search_loop
  search_loop-IsResult zero j i hr hn within =
      inr (refl, λ k hk c. absurd (omega (arith, within k hk c)))
  search_loop-IsResult (suc rounds) j i hr hn within = elim (dec_lt 0 i) [
    | no z ↦
        let none_left : i ≡ 0 = omega arith in
        rw none_left (inr (refl, λ k hk c. absurd (omega (arith, within k hk c))))
    | yes some_left ↦
        let k = j + i / 2 in
        let right = λ (past : (ps k).disc_offset + (ps k).disc_length ≤ offset).
          search_loop-IsResult rounds (k + 1) ((i - 1) / 2) (omega arith) (omega arith)
            (right_half j i some_left hn within past) in
        let left = λ (below : offset < (ps k).disc_offset).
          search_loop-IsResult rounds j (i / 2) (omega arith) (omega arith)
            (left_half j i some_left hn within below) in
        let nz : (i == 0) ≡ false = ground arith in
        let exact = t.no_wrap k (omega arith) in
        let filled = t.nonempty k (omega arith) in
        elim (Bool-cases ((ps k).disc_offset == offset)) [
          | inl here ↦ rw (nz, here) (inl (omega arith, (ground arith, ground (arith, filled))))
          | inr away ↦ elim (Bool-cases (ltb (ps k).disc_offset offset)) [
            | inl after ↦ elim (Bool-cases (ltb offset (patch_end (ps k)))) [
              | inl inside ↦
                  rw (nz, away, after, inside)
                    (inl (omega arith, (ground arith, ground (arith, exact))))
              | inr past ↦ rw (nz, away, after, past) (right (ground (arith, exact)))
            ]
            | inr before ↦ rw (nz, away, before) (left (ground arith))
          ]
        ]
  ]

  -- In a table of patches with a length each, sorted and without overlaps, that end within 32 bits:
  -- `SearchPatch` returns the index of a patch that covers the offset, or the count of patches
  -- where none covers it.
  pub search_patch_exact : IsResult (search_patch ps num offset)
  unfolding search_patch
  search_patch_exact =
      search_loop-IsResult num 0 num (le_refl num) (omega arith)
        (λ k hk c. (omega arith, omega arith))
