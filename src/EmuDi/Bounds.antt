-- ===== src/EmuDi/Bounds.antt =====
-- Where a read of the disc writes, that it ends, and a read that starts on the disc and ends in patches.
use saoirse.Prelude.{ℕ, ◌+◌, ◌≤◌, ◌<◌, ◌≡◌, ◌⊎◌, true, Option, some, ℤ, length}
use saoirse.EmuFs.Env.{is_ok}
use saoirse.EmuDi.DiError
use saoirse.EmuDi.Table.{DiEnv, Buffer, PatchFile}

-- FatFs reads at most the bytes that it is asked for, and moves in a patch file.
pub record IsFat (E : DiEnv) : Type 0 where
  pub reads : (n : ℕ) (f : PatchFile) (w : E.World) → length (E.f_read n f w).1 ≤ n
  pub seeks : (n : ℕ) (f : PatchFile) (w : E.World) → is_ok (E.f_lseek n f w).0 ≡ true

-- A disc fills at most the length of a read.
pub record IsDrive (E : DiEnv) : Type 0 where
  pub virtual_reads : (offset n : ℕ) (w : E.World) → length (E.read_from_partition offset n w).1 ≤ n
  pub drive_reads : (offset n : ℕ) (w : E.World) → length (E.drive_read n offset w).1 ≤ n

module _ (E : DiEnv) (fat : IsFat E) (drive : IsDrive E) where
  open E use {World}

  -- the same but for the bytes from `at` up to `at + len`
  abbrev pub SameOutside : ℕ → ℕ → Buffer → Buffer → Type 0
  SameOutside at len b b' = (x : ℕ) → (x < at) ⊎ (at + len ≤ x) → b' x ≡ b x

  -- A read that returns success and changes no byte outside its range.
  abbrev pub Fills : ℕ → ℕ → Buffer → Option (ℤ × Buffer × World) → Type 0
  Fills at len b r =
      (b' : Buffer) × (w' : World) × (r ≡ some (DiError.ok, b', w')) × SameOutside at len b b'
