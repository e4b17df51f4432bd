-- ===== src/Prelude/Words.antt =====
-- Machine words as native numbers: wrap by `%`, shift by `/` and `*`.
use Prim.Native.Nat.{ℕ, ◌+◌, ◌-◌, ◌*◌, ◌/◌, ◌%◌, ◌^◌}
use mathlib.Core.Bool.{Bool}
use mathlib.Core.List.{List, [], ◌∷◌}
use saoirse.Prelude.Tests.{ltb, ◌==◌, if◌then◌else◌}
use saoirse.Prelude.Int.{ℤ, pos, negsuc}

abbrev pub u32 : ℕ → ℕ
u32 n = n % 2 ^ 32

abbrev pub u64 : ℕ → ℕ
u64 n = n % 2 ^ 64

-- `uint32_t` a + b, a - b and a << 2.
abbrev pub add32 : ℕ → ℕ → ℕ
add32 a b = (a + b) % 2 ^ 32

-- `-` on ℕ stops at 0, so the modulus is added first.
abbrev pub sub32 : ℕ → ℕ → ℕ
sub32 a b = (a + 2 ^ 32 - b) % 2 ^ 32

abbrev pub shl2 : ℕ → ℕ
shl2 a = a * 4 % 2 ^ 32

-- the `int32_t` that a `uint32_t` converts to
abbrev pub to_s32 : ℕ → ℤ
to_s32 w = if ltb w (2 ^ 31) then pos w else negsuc (2 ^ 32 - w - 1)

-- `aligned(x, n)`
abbrev pub aligned : ℕ → ℕ → Bool
aligned x n = x % n == 0

-- the bytes of a `uint32_t` in memory, on a big-endian machine
abbrev pub be32 : ℕ → List ℕ
be32 v = v / 2 ^ 24 % 256 ∷ v / 2 ^ 16 % 256 ∷ v / 2 ^ 8 % 256 ∷ v % 256 ∷ []
