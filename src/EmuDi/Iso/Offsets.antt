-- ===== src/EmuDi/Iso/Offsets.antt =====
-- ios/EmuDI/ISO.cpp, the arithmetic of `ReadFromPartition`: blocks of 0x7C00 bytes of data in 0x8000.
use saoirse.Prelude.{ℕ, ◌+◌, ◌*◌, ◌/◌, ◌%◌, ◌<◌, ◌≡◌, arith, add32, u32}
use saoirse.EmuDi.Iso.{block_data_size}

-- The block and the place of a byte, from the word offset `o` of a read that starts a block ...
pub block_at_start :
    (start o k x : ℕ)
    → o % 0x1F00 ≡ 0
    → x / block_data_size ≡ k
    → add32 (add32 start (u32 (o / 0x1F00 * 0x2000))) (k * 0x2000)
      ≡ add32 start (u32 ((o * 4 + x) / block_data_size * 0x2000))
block_at_start start o k x z e =
    let whole : (o * 4 + x) / block_data_size ≡ o / 0x1F00 + k = omega (arith, z, e) in
    omega (arith, whole)

pub place_at_start :
    (o x : ℕ) → o % 0x1F00 ≡ 0 → x % block_data_size ≡ (o * 4 + x) % block_data_size
place_at_start o x z = omega (arith, z)

-- ... and from one inside a block: in that block,
pub block_inside :
    (start o x : ℕ)
    → o % 0x1F00 * 4 + x < block_data_size
    → add32 start (u32 (o / 0x1F00 * 0x2000))
      ≡ add32 start (u32 ((o * 4 + x) / block_data_size * 0x2000))
block_inside start o x lt =
    let same : (o * 4 + x) / block_data_size ≡ o / 0x1F00 = omega (arith, lt) in omega (arith, same)

pub place_inside :
    (o x : ℕ)
    → o % 0x1F00 * 4 + x < block_data_size
    → o % 0x1F00 * 4 + x ≡ (o * 4 + x) % block_data_size
place_inside o x lt = omega (arith, lt)

-- and in those after it, `n` bytes on.
pub block_after :
    (start o n k x : ℕ)
    → o % 0x1F00 * 4 + n ≡ block_data_size
    → x / block_data_size ≡ k
    → add32 (add32 (add32 start (u32 (o / 0x1F00 * 0x2000))) 0x2000) (k * 0x2000)
      ≡ add32 start (u32 ((o * 4 + (n + x)) / block_data_size * 0x2000))
block_after start o n k x e d =
    let whole : (o * 4 + (n + x)) / block_data_size ≡ o / 0x1F00 + 1 + k = omega (arith, e, d) in
    omega (arith, whole)

pub place_after :
    (o n x : ℕ)
    → o % 0x1F00 * 4 + n ≡ block_data_size
    → x % block_data_size ≡ (o * 4 + (n + x)) % block_data_size
place_after o n x e = omega (arith, e)

pub from_start : (x : ℕ) → 0 + x ≡ x
from_start x = omega arith
