-- ===== src/EmuDi/Iso/Cache.antt =====
-- ios/EmuDI/ISO.cpp, `ReadRaw` on an image of one file, and the cache of one decrypted block.
use saoirse.Prelude.{
  ℕ, ◌+◌, ◌-◌, ◌*◌, ◌/◌, ◌%◌, ◌<◌, ◌≡◌, ◌≢◌, ◌∙◌, ◌⊎◌, inl, inr, arith, true, false, some, leb,
  ◌==◌, length, get_or, refl, sym, ap, Bool-cases,
}
use native.Mathlib.Nat.{div-eq_of_lt, mod-eq_of_lt}
use saoirse.EmuFs.Env.{is_ok}
use saoirse.EmuFs.IosError
use saoirse.EmuDi.Table.{Buffer, blit}
use saoirse.EmuDi.Iso.{
  IsoEnv, IsoState, read_parts, read_raw, read_and_decrypt_block, block_size, block_data_size,
  block_header_size, copy, shift,
}

-- The one file of an image holds the bytes of `image`, and FatFs reads what it is asked for; AES
-- decrypts by `cipher`, which depends on 16 bytes of the vector and on the bytes of the data.
pub record IsImage (E : IsoEnv) (image : Buffer) : Type 0 where
  pub seeks : (o : ℕ) (w : E.World) → is_ok (E.f_lseek 0 o w).0 ≡ true
  pub reads : (o n : ℕ) (w : E.World) → is_ok (E.f_read 0 n (E.f_lseek 0 o w).1).0 ≡ true
  pub lengths : (o n : ℕ) (w : E.World) → length (E.f_read 0 n (E.f_lseek 0 o w).1).1 ≡ n
  pub contents :
      (o n x : ℕ) (w : E.World)
      → x < n
      → get_or (E.f_read 0 n (E.f_lseek 0 o w).1).1 x 0 ≡ image (o + x)
  pub cipher : Buffer → Buffer → Buffer → ℕ → Buffer
  pub decrypts :
      (key iv b : Buffer) (n : ℕ) (w : E.World) → (E.decrypt key iv b n w).0 ≡ IosError.ok
  pub plain :
      (key iv iv' b b' : Buffer) (n x : ℕ) (w : E.World)
      → ((y : ℕ) → y < 16 → iv y ≡ iv' y)
      → ((y : ℕ) → y < n → b y ≡ b' y)
      → x < n
      → (E.decrypt key iv b n w).1 x ≡ cipher key iv' b' n x

module _ (E : IsoEnv) (image : Buffer) (h : IsImage E image) where
  open E use {World}

  -- the block at a word offset of the image
  abbrev pub block_at : ℕ → Buffer
  block_at block x = image (block * 4 + x)

  -- its data, decrypted with a title key
  abbrev pub plain_block : Buffer → ℕ → Buffer
  plain_block key block =
      h.cipher key (shift (block_at block) 0x3D0) (shift (block_at block) block_header_size)
        block_data_size

  -- An image of one file, in which a read of a block at a word offset is accepted.
  abbrev pub IsOnePart : IsoState → Type 0
  IsOnePart s = (s.num_parts ≡ 1) × (s.last_part_size ≡ s.part_size)

  abbrev pub HasBlock : IsoState → ℕ → Type 0
  HasBlock s block = block * 4 + block_size < s.part_size

  read_parts-block :
      (s : IsoState) (offset n : ℕ) (b : Buffer) (w : World)
      → 0 < n
      → read_parts E s 4 0 0 offset n b w
        ≡ some (
          true,
          blit b 0 (E.f_read 0 n (E.f_lseek 0 offset w).1).1,
          (E.f_read 0 n (E.f_lseek 0 offset w).1).2,
        )
  unfolding read_parts
  read_parts-block s offset n b w some_bytes =
      ground (arith, some_bytes, h.seeks offset w, h.reads offset n w)

  read_raw-block :
      (s : IsoState) (block : ℕ) (b : Buffer) (w : World)
      → IsOnePart s
      → HasBlock s block
      → (b' : Buffer) × (w' : World) × (read_raw E s block block_size b w ≡ some (true, b', w'))
        × ((x : ℕ) → x < block_size → b' x ≡ block_at block x)
  unfolding read_raw read_parts
  read_raw-block s block b w one has =
      let got = E.f_read 0 block_size (E.f_lseek 0 (block * 4) w).1 in
      let first : block * 4 / s.part_size ≡ 0 = div-eq_of_lt (omega (arith, has)) in
      let last : (block * 4 + block_size - 1) / s.part_size ≡ 0 =
        div-eq_of_lt (omega (arith, has)) in
      let inside : block * 4 % s.part_size ≡ block * 4 = mod-eq_of_lt (omega (arith, has)) in
      let short : leb s.part_size (block * 4 + block_size) ≡ false = ground (arith, has) in
      (
        blit b 0 got.1,
        got.2,
        rw (one.0, first, last, inside, one.1, short)
            (read_parts-block s (block * 4) block_size b w (omega arith)),
        λ x lt. ground (
          arith,
          lt,
          h.lengths (block * 4) block_size w,
          h.contents (block * 4) block_size x w lt,
        ),
      )

  -- What a read of a block keeps of the members.
  abbrev pub Kept : IsoState → IsoState → Type 0
  Kept s s' =
      (s'.num_parts ≡ s.num_parts)
      × (s'.part_size ≡ s.part_size)
      × (s'.last_part_size ≡ s.last_part_size)
      × (s'.title_key ≡ s.title_key)
      × (s'.partition_opened ≡ s.partition_opened)

  -- The decrypted block is the one at the offset that was read last, if there is one.
  abbrev pub IsCoherent : IsoState → Type 0
  IsCoherent s =
      (s.last_read_block ≡ 1)
      ⊎ ((x : ℕ)
          → x < block_data_size
          → s.data_block_decrypted x ≡ plain_block s.title_key s.last_read_block x)

  -- A block that is asked for is fetched, from the cache or from the image.
  abbrev pub Fetched : ℕ → IsoState → IsoState → Type 0
  Fetched block s s' =
      Kept s s'
      × (s'.last_read_block ≡ block)
      × ((x : ℕ)
          → x < block_data_size
          → s'.data_block_decrypted x ≡ plain_block s.title_key block x)

  pub fetch :
      (s : IsoState) (block : ℕ) (w : World)
      → IsOnePart s
      → HasBlock s block
      → block ≢ 1
      → IsCoherent s
      → (s' : IsoState) × (w' : World) × (read_and_decrypt_block E block s w ≡ some (true, s', w'))
        × Fetched block s s'
  unfolding read_and_decrypt_block
  fetch s block w one has valid coherent = elim (Bool-cases (s.last_read_block == block)) [
    | inl cached ↦
        let same : s.last_read_block ≡ block = ground (arith, cached) in
        rw cached (
          s,
          w,
          refl,
          (
            (refl, refl, refl, refl, refl),
            same,
            λ x lt. elim coherent [
              | inl none_yet ↦ absurd (valid (sym same ∙ none_yet))
              | inr held ↦ held x lt ∙ ap (λ k. plain_block s.title_key k x) same
            ],
          ),
        )
    | inr missed ↦
        let (b, w1, raw, bytes) = read_raw-block s block s.data_block w one has in
        let iv = shift b 0x3D0 in
        let input = shift b block_header_size in
        let out = E.decrypt s.title_key iv input block_data_size w1 in
        let s' = record s {
          last_read_block = block;
          data_block = b;
          data_block_decrypted = copy s.data_block_decrypted 0 out.1 0 block_data_size;
        } in
        rw (missed, raw, h.decrypts s.title_key iv input block_data_size w1)
          (
            s',
            out.2,
            refl,
            (
              (refl, refl, refl, refl, refl),
              refl,
              λ x lt. ground (
                arith,
                lt,
                h.plain s.title_key iv (shift (block_at block) 0x3D0) input
                    (shift (block_at block) block_header_size) block_data_size x w1
                    (λ y small. bytes (y + 0x3D0) (omega (arith, small)))
                    (λ y small. bytes (y + block_header_size) (omega (arith, small))) lt,
              ),
            ),
          )
  ]
