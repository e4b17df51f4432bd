-- ===== src/EmuEs/Nulled.antt =====
-- ios/IOS/EmuES.cpp: what the loop over the empty vectors leaves of memory and of the vectors.
use saoirse.Prelude.{
  ℕ, zero, suc, ◌+◌, ◌-◌, ◌*◌, ◌/◌, ◌%◌, ◌<◌, ◌≡◌, ap, subst, inl, inr, refl, true, false, ◌&&◌,
  ◌==◌, ltb, leb, if◌then◌else◌, arith, Bool-cases,
}
use saoirse.Prelude.Buffers.{Buffer, fill_zero}
use saoirse.EmuEs.Commands.{Vector}
use saoirse.EmuEs.Requests.{vectors_at, null_vectors}

-- What the loop leaves of a vector.
unfoldable pub nulled : ℕ → (ℕ → Vector) → ℕ → Vector
nulled n vec i = if ltb i n && (vec i).len == 0 then record (vec i) { address = 0 } else vec i

-- Memory with 0 in the pointer of each empty one of the `n` vectors at `base`.
unfoldable pub nulled_memory : ℕ → ℕ → Buffer → Buffer
nulled_memory n base m x =
    let i = (x - base) / 8 in
    if leb base x && ltb i n && ltb ((x - base) % 8) 4 && (vectors_at m base i).len == 0
    then 0
    else m x

nulled_none : (base : ℕ) (m : Buffer) (x : ℕ) → m x ≡ nulled_memory 0 base m x
unfolding nulled_memory
nulled_none base m x = ground arith

-- A byte of the vector `i`: one of its pointer below 4, one of its length from 4 on.
nulled_byte :
    (n base : ℕ) (m : Buffer) (i k : ℕ)
    → k < 8
    → nulled_memory n base m (base + 8 * i + k)
      ≡ (if ltb i n && ltb k 4 && (vectors_at m base i).len == 0 then 0 else m (base + 8 * i + k))
unfolding nulled_memory
nulled_byte n base m i k small =
    let cell : (base + 8 * i + k - base) / 8 ≡ i = omega (arith, small) in
    let part : (base + 8 * i + k - base) % 8 ≡ k = omega (arith, small) in
    let up : leb base (base + 8 * i + k) ≡ true = ground arith in rw cell (rw part (rw up refl))

length_byte :
    (n base : ℕ) (m : Buffer) (i k : ℕ)
    → k < 4
    → nulled_memory n base m (base + 8 * i + 4 + k) ≡ m (base + 8 * i + 4 + k)
length_byte n base m i k small =
    let step : base + 8 * i + (4 + k) ≡ base + 8 * i + 4 + k = omega arith in
    let kept : nulled_memory n base m (base + 8 * i + (4 + k)) ≡ m (base + 8 * i + (4 + k)) =
      ground (arith, nulled_byte n base m i (4 + k) (omega (arith, small)), small) in
    subst (λ x. nulled_memory n base m x ≡ m x) step kept

pointer_byte :
    (n base : ℕ) (m : Buffer) (i k : ℕ)
    → k < 4
    → nulled_memory n base m (base + 8 * i + k)
      ≡ (if ltb i n && (vectors_at m base i).len == 0 then 0 else m (base + 8 * i + k))
pointer_byte n base m i k small =
    ground (arith, nulled_byte n base m i k (omega (arith, small)), small)

at_zero : (f : Buffer) (x : ℕ) → f (x + 0) ≡ f x
at_zero f x = let same : x + 0 ≡ x = omega arith in ap f same

nulled-len :
    (n base : ℕ) (m : Buffer) (i : ℕ)
    → (vectors_at (nulled_memory n base m) base i).len ≡ (vectors_at m base i).len
nulled-len n base m i =
    let at = base + 8 * i + 4 in
    omega (
      arith,
      length_byte n base m i 0 (omega arith),
      length_byte n base m i 1 (omega arith),
      length_byte n base m i 2 (omega arith),
      length_byte n base m i 3 (omega arith),
      at_zero m at,
      at_zero (nulled_memory n base m) at,
    )

nulled-address :
    (n base : ℕ) (m : Buffer) (i : ℕ)
    → (vectors_at (nulled_memory n base m) base i).address
      ≡ (if ltb i n && (vectors_at m base i).len == 0 then 0 else (vectors_at m base i).address)
nulled-address n base m i =
    let at = base + 8 * i in
    ground (
      arith,
      pointer_byte n base m i 0 (omega arith),
      pointer_byte n base m i 1 (omega arith),
      pointer_byte n base m i 2 (omega arith),
      pointer_byte n base m i 3 (omega arith),
      at_zero m at,
      at_zero (nulled_memory n base m) at,
    )

-- The vectors after the loop.
pub vectors_at-nulled :
    (n base : ℕ) (m : Buffer) (i : ℕ)
    → vectors_at (nulled_memory n base m) base i ≡ nulled n (vectors_at m base) i
unfolding nulled
vectors_at-nulled n base m i = ground (arith, nulled-len n base m i, nulled-address n base m i)

-- One more round.
nulled_memory-suc :
    (n base : ℕ) (m : Buffer) (x : ℕ)
    → nulled_memory (suc n) base m x ≡ (
        if (vectors_at m base n).len == 0 && leb (base + 8 * n) x && ltb x (base + 8 * n + 4)
        then 0
        else nulled_memory n base m x)
unfolding nulled_memory
nulled_memory-suc n base m x = elim (Bool-cases ((x - base) / 8 == n)) [
  | inl here ↦
      let cell : (x - base) / 8 ≡ n = ground (arith, here) in rw cell (ground (arith, cell))
  | inr other ↦ ground (arith, other)
]

pub null_vectors_exact : (n base : ℕ) (m : Buffer) → null_vectors n base m ≡ nulled_memory n base m
unfolding null_vectors
null_vectors_exact zero base m = λ i x. nulled_none base m x i
null_vectors_exact (suc n) base m = rw (null_vectors_exact n base m) (λ i x. one_more x i)
  where
    one_more :
        (x : ℕ)
        → (if (vectors_at (nulled_memory n base m) base n).len == 0
              then fill_zero (nulled_memory n base m) (base + 8 * n) 4
              else nulled_memory n base m)
            x
          ≡ nulled_memory (suc n) base m x
    one_more x = ground (arith, nulled-len n base m n, nulled_memory-suc n base m x)

-- Nothing else changes.
pub nulled_memory_outside :
    (n base : ℕ) (m : Buffer) (x : ℕ)
    → (leb base x && ltb x (base + 8 * n)) ≡ false
    → nulled_memory n base m x ≡ m x
unfolding nulled_memory
nulled_memory_outside n base m x outside = ground (arith, outside)
