-- ===== src/Prelude/Buffers.antt =====
-- Buffers in memory as functions from positions to bytes, with the copies and words in them.
use Prim.Native.Nat.{ℕ, zero, suc, ◌+◌, ◌-◌, ◌*◌, ◌/◌, ◌%◌, ◌^◌, ◌<◌}
use mathlib.Core.Path.{◌≡◌}
use mathlib.Core.Bool.{◌&&◌}
use mathlib.Core.List.{List, [], ◌∷◌}
use native.Mathlib.Omega.{arith}
use saoirse.Prelude.Tests.{ltb, leb, if◌then◌else◌}
use saoirse.Prelude.Lists.{length, get_or}

-- Its bytes by position.
abbrev pub Buffer : Type 0
Buffer = ℕ → ℕ

-- `memcpy(out + at, bytes)` and `memset(out + at, 0, n)`
abbrev pub blit : Buffer → ℕ → List ℕ → Buffer
blit b at bytes x = if leb at x && ltb x (at + length bytes) then get_or bytes (x - at) 0 else b x

abbrev pub fill_zero : Buffer → ℕ → ℕ → Buffer
fill_zero b at n x = if leb at x && ltb x (at + n) then 0 else b x

-- `memcpy(out + at, src + from, n)`
abbrev pub copy : Buffer → ℕ → Buffer → ℕ → ℕ → Buffer
copy b at src from n x = if leb at x && ltb x (at + n) then src (x - at + from) else b x

abbrev pub shift : Buffer → ℕ → Buffer
shift b n x = b (x + n)

-- `n` bytes from `at` on
abbrev pub bytes_at : Buffer → ℕ → ℕ → List ℕ
bytes_at b at zero = []
bytes_at b at (suc n) = b at ∷ bytes_at b (at + 1) n

-- Big-endian words of a buffer.
abbrev pub word : Buffer → ℕ → ℕ
word b x = b x * 2 ^ 24 + b (x + 1) * 2 ^ 16 + b (x + 2) * 2 ^ 8 + b (x + 3)

abbrev pub double_word : Buffer → ℕ → ℕ
double_word b x = word b x * 2 ^ 32 + word b (x + 4)

-- Little-endian words, in memory and from it.
abbrev pub le32 : ℕ → List ℕ
le32 v = v % 256 ∷ v / 2 ^ 8 % 256 ∷ v / 2 ^ 16 % 256 ∷ v / 2 ^ 24 % 256 ∷ []

abbrev pub word_le : Buffer → ℕ → ℕ
word_le b x = b x + b (x + 1) * 2 ^ 8 + b (x + 2) * 2 ^ 16 + b (x + 3) * 2 ^ 24

pub copy_inside :
    (b src : Buffer) (at from n x : ℕ) → x < n → copy b at src from n (at + x) ≡ src (from + x)
copy_inside b src at from n x lt = ground (arith, lt)
