-- ===== src/EmuDi/Read.antt =====
-- ios/EmuDI/EmuDI.cpp, `Read`: a read of the patched disc.
use saoirse.Prelude.{
  ℕ, zero, suc, ◌+◌, ◌-◌, ◌/◌, Bool, Option, none, some, leb, ◌==◌, if◌then◌else◌, ℤ, eq_ℤ, length,
  add32, sub32, shl2, min,
}
use saoirse.EmuFs.Env.{is_ok}
use saoirse.EmuDi.Table.{
  blit, fill_zero, DvdPatch, PatchFile, Buffer, DiEnv, Patches, search_patch, open_patch_file,
}
use saoirse.EmuDi.Disc.{real_read}
use saoirse.EmuDi.DiError

-- the word offset at which the patches begin
abbrev pub patched : ℕ
patched = 0x80000000

-- `IsPatchedOffset`: the highest bit of a 32-bit offset
abbrev pub is_patched_offset : ℕ → Bool
is_patched_offset offset = leb patched offset

-- How a read ends: the buffer and the disc and volume. `none` is the call of `abort`.
module _ (E : DiEnv) where
  open E use {World, f_lseek, f_read}

  abbrev pub Result : Type 0
  Result = Option (ℤ × Buffer × World)

  -- the bytes of patch `p` that a read at `offset` for `len` bytes takes in one round
  abbrev pub round_len : DvdPatch → ℕ → ℕ → ℕ
  round_len p offset len =
      let all = shl2 p.disc_length in
      let rest =
        if p.disc_offset == offset then all else sub32 all (shl2 (sub32 offset p.disc_offset)) in
      min rest len

  -- the file of the patch, moved on where the read begins inside the patch; `none` is an abort
  unfoldable pub seek_patch : DvdPatch → ℕ → World → Option (PatchFile × World)
  seek_patch p offset w =
      let f = open_patch_file p in
      let (fret, f', w') = f_lseek (shl2 (sub32 offset p.disc_offset)) f w in
      if p.disc_offset == offset then some (f, w) else if is_ok fret then some (f', w') else none

  -- One read of a patch: after an error the rest of the round is zeroes.
  unfoldable pub read_patch : PatchFile → ℕ → ℕ → Buffer → World → Buffer × World
  read_patch f at len b w =
      let (fret, got, f', w') = f_read len f w in
      let b' = blit b at got in
      (if is_ok fret then b' else fill_zero b' (at + length got) (len - length got), w')

  -- The loop of `Read` over the patches from `idx` on, with rounds for those that are left; `at` is
  -- how far `outbuf` has moved.
  unfoldable pub read_loop : Patches → ℕ → ℕ → ℕ → ℕ → ℕ → ℕ → Buffer → World → Result
  read_loop ps num zero idx offset at len b w = none
  read_loop ps num (suc rounds) idx offset at len b w =
      let p = ps idx in
      let n = round_len p offset len in
      let next = λ (f : PatchFile) (w1 : World).
        let (b', w') = read_patch f at n b w1 in
        read_loop ps num rounds (idx + 1) (add32 offset (n / 4)) (at + n) (len - n) b' w' in
      if len == 0
      then some (DiError.ok, b, w)
      else if leb num idx
      then some (DiError.ok, fill_zero b at len, w)
      else elim (seek_patch p offset w) [ none ↦ none | some (f, w1) ↦ next f w1 ]

  abbrev pub read_patched : Patches → ℕ → ℕ → ℕ → ℕ → Buffer → World → Result
  read_patched ps num offset at len b w =
      read_loop ps num (num + 2) (search_patch ps num offset) offset at len b w

  -- `Read`; `offset` is in words and `len` in bytes. The read of the part on the disc moves the
  -- buffer and the length on, and not the offset.
  unfoldable pub read_disc : Bool → Patches → ℕ → ℕ → ℕ → Buffer → World → Result
  read_disc virtual ps num offset len b w =
      let here = shl2 (sub32 patched offset) in
      let (r, got, w') = real_read E virtual offset len w in
      let (r1, got1, w1) = real_read E virtual offset here w in
      let b1 = if eq_ℤ r1 DiError.ok then blit b 0 got1 else fill_zero (blit b 0 got1) 0 here in
      if is_patched_offset offset
      then read_patched ps num offset 0 len b w
      else if is_patched_offset (sub32 (add32 offset (len / 4)) 1)
      then read_patched ps num offset here (sub32 len here) b1 w1
      else some (r, blit b 0 got, w')
