-- ===== src/EmuDi/Iso/Blocks.antt =====
-- ios/EmuDI/ISO.cpp, reads of whole blocks of a partition through the cache of one block.
use saoirse.Prelude.{
  ℕ, zero, suc, ◌+◌, ◌-◌, ◌*◌, ◌/◌, ◌%◌, ◌^◌, ◌≤◌, ◌<◌, ◌≡◌, ◌≢◌, ◌∙◌, inl, inr, arith, true, some,
  leb, ◌==◌, add32, refl, sym, ap, Bool-cases,
}
use native.Mathlib.Decide.{dec_lt}
use saoirse.EmuDi.Table.{Buffer}
use saoirse.EmuDi.Iso.{
  IsoEnv, IsoState, Read, read_and_decrypt_block, copy_block, read_blocks, block_size,
  block_data_size, copy,
}
use saoirse.EmuDi.Iso.Cache.{IsImage, IsCoherent, plain_block, fetch}
use saoirse.EmuDi.Iso.Offsets.{from_start}
use saoirse.Prelude.Buffers.{copy_inside}

module _ (E : IsoEnv) (image : Buffer) (h : IsImage E image) (size : ℕ) (key : Buffer) where
  open E use {World}

  -- An image of one file of `size` bytes with a title key, and a cache that is right.
  abbrev pub IsGood : IsoState → Type 0
  IsGood s =
      (s.num_parts ≡ 1)
      × (s.part_size ≡ size)
      × (s.last_part_size ≡ size)
      × (s.title_key ≡ key)
      × IsCoherent E image h s

  -- A block that the image has, and that a cache can name.
  abbrev pub IsBlock : ℕ → Type 0
  IsBlock block = (block * 4 + block_size < size) × (block ≢ 1)

  abbrev pub plain : ℕ → Buffer
  plain = plain_block E image h key

  fetch-IsGood :
      (s : IsoState) (block : ℕ) (w : World)
      → IsGood s
      → IsBlock block
      → (s' : IsoState) × (w' : World) × (read_and_decrypt_block E block s w ≡ some (true, s', w'))
        × IsGood s'
        × ((x : ℕ) → x < block_data_size → s'.data_block_decrypted x ≡ plain block x)
  fetch-IsGood s block w good is =
      let (one, part, last, title, coherent) = good in
      let (s', w', eq, ((one', part', last', title', opened'), at, bytes)) =
        fetch E image h s block w (one, last ∙ sym part) (omega (arith, is.0, part)) is.1
          coherent in
      let right = λ (x : ℕ) (lt : x < block_data_size).
        bytes x lt ∙ ap (λ k. plain_block E image h k block x) title in
      (
        s',
        w',
        eq,
        (
          one' ∙ one,
          part' ∙ part,
          last' ∙ last,
          title' ∙ title,
          inr (λ x lt.
              right x lt
              ∙ ap (λ k. plain_block E image h k block x) (sym (title' ∙ title))
              ∙ ap (λ k. plain_block E image h s'.title_key k x) (sym at)),
        ),
        right,
      )

  pub copy_block-plain :
      (block from n at : ℕ) (b : Buffer) (s : IsoState) (w : World)
      (go : Buffer → IsoState → World → Read E)
      → IsGood s
      → IsBlock block
      → from + n ≤ block_data_size
      → (b' : Buffer) × (s' : IsoState) × (w' : World) × (copy_block E block from n at b s w go
          ≡ go b' s' w')
        × IsGood s'
        × ((x : ℕ) → x < n → b' (at + x) ≡ plain block (from + x))
        × ((x : ℕ) → x < at → b' x ≡ b x)
  unfolding copy_block
  copy_block-plain block from n at b s w go good is fits =
      let (s', w', eq, good', bytes) = fetch-IsGood s block w good is in
      (
        copy b at s'.data_block_decrypted from n,
        s',
        w',
        rw (eq, copy_block) refl,
        good',
        λ x lt.
            copy_inside b s'.data_block_decrypted at from n x lt
            ∙ bytes (from + x) (omega (arith, lt, fits)),
        λ x lt. ground (arith, lt),
      )

  -- The bytes of the partition from the start of a block on.
  abbrev pub byte_from : ℕ → ℕ → ℕ
  byte_from block x = plain (add32 block (x / block_data_size * 0x2000)) (x % block_data_size)

  pub byte_from-first :
      (block x : ℕ) → block < 2 ^ 32 → x < block_data_size → byte_from block x ≡ plain block x
  byte_from-first block x word lt =
      let here : add32 block (x / block_data_size * 0x2000) ≡ block = omega (arith, word, lt) in
      let at : x % block_data_size ≡ x = omega (arith, lt) in
      ap (λ k. plain k (x % block_data_size)) here ∙ ap (plain block) at

  pub byte_from-next :
      (block x : ℕ)
      → block_data_size ≤ x
      → byte_from (add32 block 0x2000) (x - block_data_size) ≡ byte_from block x
  byte_from-next block x le =
      let y = x - block_data_size in
      let here : add32 (add32 block 0x2000) (y / block_data_size * 0x2000)
          ≡ add32 block (x / block_data_size * 0x2000) =
        omega (arith, le) in
      let at : y % block_data_size ≡ x % block_data_size = omega (arith, le) in
      ap (λ k. plain k (y % block_data_size)) here
      ∙ ap (plain (add32 block (x / block_data_size * 0x2000))) at

  -- The blocks of a read from the start of a block.
  abbrev pub HasBlocks : ℕ → ℕ → Type 0
  HasBlocks block len = (k : ℕ) → k * block_data_size < len → IsBlock (add32 block (k * 0x2000))

  pub HasBlocks-first :
      (block len : ℕ) → block < 2 ^ 32 → 0 < len → HasBlocks block len → IsBlock block
  HasBlocks-first block len word some_bytes has =
      let here : add32 block (0 * 0x2000) ≡ block = omega (arith, word) in
      let first = has 0 (omega (arith, some_bytes)) in
      (omega (arith, first.0, here), λ e. first.1 (here ∙ e))

  pub HasBlocks-next :
      (block len : ℕ) → HasBlocks block len → HasBlocks (add32 block 0x2000) (len - block_data_size)
  HasBlocks-next block len has k lt =
      let here : add32 (add32 block 0x2000) (k * 0x2000) ≡ add32 block ((k + 1) * 0x2000) =
        omega arith in
      let it = has (k + 1) (omega (arith, lt)) in
      (omega (arith, it.0, here), λ e. it.1 (sym here ∙ e))

  -- What a read of `len` bytes from the start of a block at position `at` of the buffer gives.
  abbrev pub Gives : ℕ → ℕ → ℕ → Buffer → Read E → Type 0
  Gives block at len b r =
      (b' : Buffer) × (s' : IsoState) × (w' : World) × (r ≡ some (true, b', s', w'))
      × IsGood s'
      × ((x : ℕ) → x < len → b' (at + x) ≡ byte_from block x)
      × ((x : ℕ) → x < at → b' x ≡ b x)

  pub read_blocks-Gives :
      (rounds block at len : ℕ) (b : Buffer) (s : IsoState) (w : World)
      → IsGood s
      → block < 2 ^ 32
      → len < rounds * block_data_size
      → HasBlocks block len
      → Gives block at len b (read_blocks E rounds block at len b s w)
  unfolding read_blocks
  read_blocks-Gives zero block at len b s w good word enough has = absurd (omega (arith, enough))
  read_blocks-Gives (suc rounds) block at len b s w good word enough has =
      elim (Bool-cases (leb block_data_size len)) [
        | inl full ↦
            let next = add32 block 0x2000 in
            let go = read_blocks E rounds next (at + block_data_size) (len - block_data_size) in
            let this =
              copy_block-plain block 0 block_data_size at b s w go good
                (HasBlocks-first block len word (ground (arith, full)) has) (omega arith) in
            let (b1, s1, w1, eq1, good1, here, before) = this in
            let (b', s', w', eq, good', later, kept) =
              read_blocks-Gives rounds next (at + block_data_size) (len - block_data_size) b1 s1 w1
                good1 (omega arith) (ground (arith, enough, full)) (HasBlocks-next block len has) in
            rw (full, eq1)
              (
                b',
                s',
                w',
                eq,
                good',
                λ x lt. elim (dec_lt x block_data_size) [
                  | yes near ↦
                      kept (at + x) (omega (arith, near))
                      ∙ here x near
                      ∙ ap (plain block) (from_start x)
                      ∙ sym (byte_from-first block x word near)
                  | no far ↦
                      let place : at + x ≡ at + block_data_size + (x - block_data_size) =
                        omega (arith, far) in
                      ap b' place
                      ∙ later (x - block_data_size) (omega (arith, lt, far))
                      ∙ byte_from-next block x (omega (arith, far))
                ],
                λ x lt. kept x (omega (arith, lt)) ∙ before x lt,
              )
        | inr short ↦ elim (Bool-cases (len == 0)) [
          | inl z ↦
              rw (short, z)
                (b, s, w, refl, good, λ x lt. absurd (ground (arith, lt, z)), λ x lt. refl)
          | inr some_left ↦
              let this =
                copy_block-plain block 0 len at b s w (λ b' s' w'. some (true, b', s', w')) good
                  (HasBlocks-first block len word (ground (arith, some_left)) has)
                  (ground (arith, short)) in
              let (b1, s1, w1, eq1, good1, here, before) = this in
              rw (short, some_left, eq1)
                (
                  b1,
                  s1,
                  w1,
                  refl,
                  good1,
                  λ x lt.
                      here x lt
                      ∙ ap (plain block) (from_start x)
                      ∙ sym (byte_from-first block x word (ground (arith, lt, short))),
                  before,
                )
        ]
      ]
