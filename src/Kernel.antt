-- ===== src/Kernel.antt =====
-- ios/IOS/System.cpp, what the other parts call of it: copies to memory that takes whole words only.
pub mod Clock
pub mod Copies
mod Tests
use saoirse.Prelude.{
  ℕ, ◌+◌, ◌-◌, ◌*◌, ◌%◌, ◌^◌, Bool, true, not, ◌&&◌, ◌||◌, leb, ltb, ◌==◌, if◌then◌else◌, u32,
}
use saoirse.Prelude.Buffers.{Buffer, copy}

-- `round_down(a, 4)` and `round_up(a, 4)`
unfoldable pub round_down : ℕ → ℕ
round_down a = a - a % 4

unfoldable pub round_up : ℕ → ℕ
round_up a = let b = u32 (a + 3) in b - b % 4

-- A word in memory is its four bytes, the highest first, and a mask of whole bytes a test on their
-- places. `mask32(address, mask, data)` with data inside the mask:
unfoldable pub mask32 : ℕ → (ℕ → Bool) → Buffer → Buffer → Buffer
mask32 address mask word m x =
    if leb address x && ltb x (address + 4) && mask (x - address) then word (x - address) else m x

-- The word that the bytes from the first source byte on move down to.
unfoldable pub shift_right : ℕ → Buffer → Buffer
shift_right n word x = if ltb x n then 0 else word (x - n)

-- `System::UnalignedMemcpy`, to a memory from bytes that it does not overlap.
unfoldable pub unaligned_memcpy : ℕ → Buffer → ℕ → Buffer → Buffer
unaligned_memcpy dest src len m =
    let rounded = round_down dest in
    let end = u32 (dest + len) in
    let end_rounded = round_down end in
    let up = round_up dest in
    let m1 = copy m up src (u32 (up + 2 ^ 32 - dest)) (u32 (end_rounded + 2 ^ 32 - up)) in
    let ends_here = ltb (u32 (end + 2 ^ 32 - rounded)) 4 in
    let leading : ℕ → Bool = λ x. leb (dest % 4) x && (not ends_here || ltb x (end - rounded)) in
    let m2 =
      if rounded == dest then m1 else mask32 rounded leading (shift_right (dest % 4) src) m1 in
    let trailing : ℕ → Bool = λ x. ltb x (end - end_rounded) in
    if not (end == end_rounded) && (not (end_rounded == rounded) || rounded == dest)
    then mask32 end_rounded trailing (λ x. src (end_rounded - dest + x)) m2
    else m2
