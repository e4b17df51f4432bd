-- ===== src/Kernel/Copies.antt =====
-- ios/IOS/System.cpp, `UnalignedMemcpy`, against a plain copy.
use saoirse.Prelude.{
  ℕ, ◌+◌, ◌-◌, ◌%◌, ◌^◌, ◌<◌, ◌≤◌, ◌≡◌, ◌≢◌, ◌∙◌, inl, inr, sym, ap, Bool-cases, false, arith, Bool,
  true, not, ◌&&◌, ◌||◌, leb, ltb, ◌==◌, if◌then◌else◌, u32,
}
use saoirse.Prelude.Buffers.{Buffer, copy}
use native.Mathlib.Decide.{dec_lt}
use saoirse.Kernel.{round_down, round_up, mask32, shift_right, unaligned_memcpy}

-- The whole words, where the bytes start at the beginning of a word or in the one before.
head_aligned :
    (a b x : ℕ) (src m : Buffer) → a ≤ b → copy m a src (a - a) (b - a) x ≡ copy m a src 0 (b - a) x
head_aligned a b x src m le =
    let none_off : a - a ≡ 0 = omega arith in ap (λ n. copy m a src n (b - a) x) none_off

head_inside :
    (a b r x : ℕ) (src m : Buffer)
    → r < 4
    → a + 4 ≤ b
    → mask32 a
        (λ y. leb r y && true)
        (shift_right r src)
        (copy m (a + 4) src (a + 4 - (a + r)) (b - (a + 4)))
        x
      ≡ copy m (a + r) src 0 (b - (a + r)) x
unfolding mask32 shift_right
head_inside a b r x src m r4 reach = elim (dec_lt x (a + 4)) [
  | yes early ↦
      let at : x - a - r ≡ x - (a + r) + 0 = omega arith in
      let same = ap src at in ground (arith, r4, reach, early, same)
  | no late ↦ elim (dec_lt x b) [
    | yes inside ↦
        let at : x - (a + 4) + (a + 4 - (a + r)) ≡ x - (a + r) + 0 = omega (arith, late, r4) in
        let same = ap src at in ground (arith, r4, reach, late, inside, same)
    | no past ↦ ground (arith, r4, reach, late, past)
  ]
]

-- The bytes in the last word.
tail :
    (d b e x : ℕ) (src m m2 : Buffer)
    → d ≤ b
    → m2 x ≡ copy m d src 0 (b - d) x
    → e < 4
    → mask32 b (λ y. ltb y e) (λ y. src (b - d + y)) m2 x ≡ copy m d src 0 (b + e - d) x
unfolding mask32
tail d b e x src m m2 le before e4 = elim (dec_lt x b) [
  | yes early ↦ ground (arith, le, before, early)
  | no late ↦
      let at : b - d + (x - b) ≡ x - d + 0 = omega (arith, late, le) in
      let same = ap src at in ground (arith, le, before, late, same, e4)
]

-- The copy up to the last word, whatever the numbers are called.
module _ (dest a r b up off n lim x : ℕ) (ends : Bool) (src m : Buffer) where
  abbrev head : Buffer
  head =
      if a == dest
      then copy m up src off n
      else mask32 a (λ y. leb r y && (not ends || ltb y lim)) (shift_right r src)
          (copy m up src off n)

  head-plain :
      dest ≡ a + r
      → r < 4
      → up ≡ a + (if r == 0 then 0 else 4)
      → up ≤ b
      → off ≡ up - dest
      → n ≡ b - up
      → ((a == dest) ≡ false → ends ≡ false)
      → head x ≡ copy m dest src 0 (b - dest) x
  head-plain at r4 upe reach offe ne no_end = elim (Bool-cases (a == dest)) [
    | inl aligned ↦
        let e1 : up ≡ dest = ground (arith, at, aligned, upe) in
        let e2 : off ≡ 0 = omega (arith, offe, e1) in
        let e3 : n ≡ b - dest = omega (arith, ne, e1) in
        rw aligned (
          ap (λ u. copy m u src off n x) e1
          ∙ ap (λ o. copy m dest src o n x) e2
          ∙ ap (λ l. copy m dest src 0 l x) e3)
    | inr inside ↦
        let e1 : up ≡ a + 4 = ground (arith, at, inside, upe) in
        let e2 : off ≡ a + 4 - (a + r) = omega (arith, offe, e1, at) in
        let e3 : n ≡ b - (a + 4) = omega (arith, ne, e1) in
        rw inside (
          ap
            (λ f.
              mask32 a (λ y. leb r y && (not f || ltb y lim)) (shift_right r src)
                (copy m up src off n) x)
            (no_end inside)
          ∙ ap (λ u. mask32 a (λ y. leb r y && true) (shift_right r src) (copy m u src off n) x) e1
          ∙ ap (λ o. mask32 a (λ y. leb r y && true) (shift_right r src) (copy m (a + 4) src o n) x)
              e2
          ∙ ap
              (λ l.
                mask32 a (λ y. leb r y && true) (shift_right r src)
                  (copy m (a + 4) src (a + 4 - (a + r)) l) x)
              e3
          ∙ head_inside a b r x src m r4 (omega (arith, reach, e1))
          ∙ ap (λ d. copy m d src 0 (b - d) x) (sym at))
  ]

-- Where the bytes reach the end of the word that they start in, or start at its beginning, and end
-- below the last word of the address space, the copy with word writes leaves the memory as a plain
-- copy does.
pub unaligned_memcpy_exact :
    (dest len x : ℕ) (src m : Buffer)
    → dest + len + 3 < 2 ^ 32
    → round_up dest ≤ dest + len
    → unaligned_memcpy dest src len m x ≡ copy m dest src 0 len x
unfolding unaligned_memcpy round_up round_down
unaligned_memcpy_exact dest len x src m below reaches =
    let a = round_down dest in
    let end = u32 (dest + len) in
    let b = round_down end in
    let up = round_up dest in
    let off = u32 (up + 2 ^ 32 - dest) in
    let n = u32 (b + 2 ^ 32 - up) in
    let ends = ltb (u32 (end + 2 ^ 32 - a)) 4 in
    let same : end ≡ dest + len = omega (arith, below) in
    let up_low : up ≤ b = omega (arith, below, reaches) in
    let upe : up ≡ a + (if dest % 4 == 0 then 0 else 4) = ground (arith, below) in
    let plain : head dest a (dest % 4) b up off n (end - a) x ends src m x
        ≡ copy m dest src 0 (b - dest) x =
      head-plain dest a (dest % 4) b up off n (end - a) x ends src m (omega arith) (omega arith) upe
        up_low (omega (arith, below)) (omega (arith, up_low, below))
        (λ inside. ground (arith, inside, same, reaches, below)) in
    let here : dest ≤ b = omega (arith, up_low, below) in
    let cond = not (end == b) && (not (b == a) || a == dest) in
    elim (Bool-cases cond) [
      | inl go ↦
          let whole : b + (end - b) - dest ≡ len = omega (arith, same, here) in
          rw go (
            tail dest b (end - b) x src m (head dest a (dest % 4) b up off n (end - a) x ends src m)
              here plain (omega arith)
            ∙ ap (λ l. copy m dest src 0 l x) whole)
      | inr stop ↦
          let whole : b - dest ≡ len = ground (arith, stop, same, up_low, upe, below) in
          rw stop (plain ∙ ap (λ l. copy m dest src 0 l x) whole)
    ]

-- Where the bytes start inside a word and end before its end, the copy also writes over all memory
-- from four bytes behind the destination on: each byte there becomes the one that stands as far
-- behind the start of the source.
pub short_copy_overruns :
    (dest len x : ℕ) (src m : Buffer)
    → dest % 4 ≢ 0
    → dest % 4 + len < 4
    → dest + 4 ≤ x
    → x < 2 ^ 32
    → unaligned_memcpy dest src len m x ≡ src (x - dest)
unfolding unaligned_memcpy mask32 shift_right round_up round_down
short_copy_overruns dest len x src m inside short past upto =
    ground (arith, inside, short, past, upto)
