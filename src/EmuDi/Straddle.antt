-- ===== src/EmuDi/Straddle.antt =====
-- ios/EmuDI/EmuDI.cpp, `Read`: a read that starts on the disc and ends in patches.
use saoirse.Prelude.{
  ℕ, suc, ◌+◌, ◌-◌, ◌*◌, ◌/◌, ◌^◌, ◌≤◌, ◌<◌, ◌≡◌, inl, inr, arith, Bool, true, false, some, refl,
  leb, ◌==◌, if◌then◌else◌, eq_ℤ, add32, sub32, shl2,
}
use saoirse.EmuDi.DiError
use saoirse.EmuDi.Table.{DiEnv, Buffer, Patches, blit, fill_zero, search_patch}
use saoirse.EmuDi.Disc.{real_read}
use saoirse.EmuDi.Search.{IsTable, search_patch_exact}
use saoirse.EmuDi.Read.{read_loop, read_disc, read_patched, patched}

no_patch_below :
    (ps : Patches) (num offset : ℕ)
    → IsTable ps num
    → ((k : ℕ) → k < num → patched ≤ (ps k).disc_offset)
    → offset < patched
    → leb num (search_patch ps num offset) ≡ true
no_patch_below ps num offset t high low = elim (search_patch_exact ps num offset t) [
  | inl (inside, covers) ↦
      absurd (ground (arith, covers, low, high (search_patch ps num offset) inside))
  | inr (same, e) ↦ ground (arith, same)
]

module _ (E : DiEnv) where
  open E use {World}

  read_patched-past :
      (ps : Patches) (num offset at len : ℕ) (b : Buffer) (w : World)
      → (len == 0) ≡ false
      → leb num (search_patch ps num offset) ≡ true
      → read_patched E ps num offset at len b w ≡ some (DiError.ok, fill_zero b at len, w)
  unfolding read_loop
  read_patched-past ps num offset at len b w some_left past =
      let more : num + 2 ≡ suc (num + 1) = omega arith in rw (more, some_left, past) refl

  -- In a table of patches with a length each, sorted and without overlaps, that end within 32 bits
  -- and all start at patched offsets: a read that starts on the disc and has its last word at a
  -- patched offset reports success, and each byte of its patched part is zero.
  pub straddling_read_zeroes :
      (virtual : Bool) (ps : Patches) (num offset len : ℕ) (b : Buffer) (w : World)
      → IsTable ps num
      → ((k : ℕ) → k < num → patched ≤ (ps k).disc_offset)
      → offset < patched
      → len < 2 ^ 32
      → patched < offset + len / 4
      → (b' : Buffer) × (w' : World) × (read_disc E virtual ps num offset len b w
          ≡ some (DiError.ok, b', w'))
        × ((x : ℕ) → (patched - offset) * 4 ≤ x → x < len → b' x ≡ 0)
  unfolding read_disc
  straddling_read_zeroes virtual ps num offset len b w t high low short across =
      let here = shl2 (sub32 patched offset) in
      let first = real_read E virtual offset here w in
      let b1 =
        if eq_ℤ first.0 DiError.ok then blit b 0 first.1 else fill_zero (blit b 0 first.1) 0 here in
      let on_disc : leb patched offset ≡ false = ground (arith, low) in
      let ends : leb patched (sub32 (add32 offset (len / 4)) 1) ≡ true =
        ground (arith, across, short, low) in
      let exact : here ≡ (patched - offset) * 4 = omega (arith, low, across, short) in
      let rest : sub32 len here ≡ len - here = omega (arith, exact, low, across, short) in
      let some_left : (sub32 len here == 0) ≡ false = ground (arith, rest, exact, low, across) in
      let none_found : leb num (search_patch ps num offset) ≡ true =
        no_patch_below ps num offset t high low in
      rw
        (
          on_disc,
          ends,
          read_patched-past ps num offset here (sub32 len here) b1 first.2 some_left none_found,
        )
        (
          fill_zero b1 here (sub32 len here),
          first.2,
          refl,
          λ x from to. ground (arith, from, to, exact, rest),
        )
