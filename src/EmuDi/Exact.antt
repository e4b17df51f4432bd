-- ===== src/EmuDi/Exact.antt =====
-- ios/EmuDI/EmuDI.cpp, `Read`: what a read from the start of a patch returns.
use saoirse.Prelude.{ℕ, ◌<◌, ◌≡◌, inl, inr, arith}
use native.Mathlib.Decide.{dec_lt}
use saoirse.EmuDi.DiError
use saoirse.EmuDi.Table.{Patches, search_patch}
use saoirse.EmuDi.Search.{IsTable, Covers, search_patch_exact}

-- Patches do not overlap: one index covers an offset.
patch_index_unique :
    (ps : Patches) (num offset j k : ℕ)
    → IsTable ps num
    → j < num
    → k < num
    → Covers (ps j) offset
    → Covers (ps k) offset
    → j ≡ k
patch_index_unique ps num offset j k t hj hk cj ck = elim (dec_lt j k) [
  | yes p ↦ absurd (omega (arith, t.sorted j k p hk, cj, ck))
  | no p ↦ elim (dec_lt k j) [
    | yes q ↦ absurd (omega (arith, t.sorted k j q hj, cj, ck))
    | no q ↦ omega arith
  ]
]

pub search_patch-covered :
    (ps : Patches) (num offset k : ℕ)
    → IsTable ps num
    → k < num
    → Covers (ps k) offset
    → search_patch ps num offset ≡ k
search_patch-covered ps num offset k t hk ck = elim (search_patch_exact ps num offset t) [
  | inl (inside, covers) ↦
      patch_index_unique ps num offset (search_patch ps num offset) k t inside hk covers ck
  | inr (same, e) ↦ absurd (e k hk ck)
]
