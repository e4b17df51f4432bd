-- ===== src/EmuEs/Title.antt =====
-- ios/IOS/EmuES.cpp with ios/EmuDI/ISO.cpp: the title context that opening a partition sets up, and
-- the requests that answer from it.
use saoirse.Prelude.{
  ℕ, ◌+◌, ◌-◌, ◌*◌, ◌/◌, ◌%◌, ◌<◌, ◌^◌, ◌≡◌, ap, ◌∙◌, inl, inr, refl, subst, true, some, arith,
  Option-cases,
}
use saoirse.Prelude.Buffers.{Buffer, word, double_word, copy, copy_inside}
use saoirse.EmuDi.DiError
use saoirse.EmuDi.Iso.{
  IsoEnv, IsoState, partition_size, open_partition, take_title_key, read_tmd, read_raw,
}
use saoirse.EmuEs.EsError
use saoirse.EmuEs.Ioctl.{EsIoctl, ticket_size, ticket_title_id}
use saoirse.EmuEs.Calls.{Es, u64_bytes}
use saoirse.EmuEs.Calls
use saoirse.EmuEs.Commands.{TitleContext, di_verify, put_u64}
use saoirse.EmuEs.Requests.{vectors_at, req_ioctlv}
use saoirse.EmuEs.Nulled.{nulled, nulled_memory, vectors_at-nulled}
use saoirse.EmuEs.Layout.{fits, perform, req_ioctlv-fits}

zero_add : (k : ℕ) → 0 + k ≡ k
zero_add k = omega arith

-- A number below 2^64 from its bytes.
digits :
    (n : ℕ)
    → n < 2 ^ 64
    → (n / 256 ^ 7 % 256 * 2 ^ 24
            + n / 256 ^ 6 % 256 * 2 ^ 16
            + n / 256 ^ 5 % 256 * 2 ^ 8
            + n / 256 ^ 4 % 256)
          * 2 ^ 32
        + (n / 256 ^ 3 % 256 * 2 ^ 24
            + n / 256 ^ 2 % 256 * 2 ^ 16
            + n / 256 % 256 * 2 ^ 8
            + n % 256)
      ≡ n
digits n small = omega (arith, small)

-- A 64-bit number stored is read back.
double_word-put_u64 : (m : Buffer) (at n : ℕ) → n < 2 ^ 64 → double_word (put_u64 m at n) at ≡ n
double_word-put_u64 m at n small =
    let b0 : put_u64 m at n at ≡ n / 256 ^ 7 % 256 = ground arith in
    let b1 : put_u64 m at n (at + 1) ≡ n / 256 ^ 6 % 256 = stored 1 (omega arith) in
    let b2 : put_u64 m at n (at + 2) ≡ n / 256 ^ 5 % 256 = stored 2 (omega arith) in
    let b3 : put_u64 m at n (at + 3) ≡ n / 256 ^ 4 % 256 = stored 3 (omega arith) in
    let b4 : put_u64 m at n (at + 4) ≡ n / 256 ^ 3 % 256 = stored 4 (omega arith) in
    let b5 : put_u64 m at n (at + 5) ≡ n / 256 ^ 2 % 256 = stored 5 (omega arith) in
    let b6 : put_u64 m at n (at + 6) ≡ n / 256 ^ 1 % 256 = stored 6 (omega arith) in
    let b7 : put_u64 m at n (at + 7) ≡ n / 256 ^ 0 % 256 = stored 7 (omega arith) in
    let b5' : put_u64 m at n (at + 4 + 1) ≡ n / 256 ^ 2 % 256 =
      ap (put_u64 m at n) (assoc 1) ∙ b5 in
    let b6' : put_u64 m at n (at + 4 + 2) ≡ n / 256 ^ 1 % 256 =
      ap (put_u64 m at n) (assoc 2) ∙ b6 in
    let b7' : put_u64 m at n (at + 4 + 3) ≡ n / 256 ^ 0 % 256 =
      ap (put_u64 m at n) (assoc 3) ∙ b7 in
    omega (arith, b0, b1, b2, b3, b4, b5', b6', b7', digits n small)
  where
    assoc : (k : ℕ) → at + 4 + k ≡ at + (4 + k)
    assoc k = omega arith

    stored : (k : ℕ) → k < 8 → put_u64 m at n (at + k) ≡ n / 256 ^ (7 - k) % 256
    stored k lt = copy_inside m (u64_bytes n) at 0 8 k lt ∙ ap (u64_bytes n) (zero_add k)

-- The context of a title whose ticket was verified.
pub record IsContextOf (ticket : Buffer) (s : TitleContext) : Type 0 where
  pub used : s.use_title_ctx ≡ true
  pub named : s.title_id ≡ double_word ticket ticket_title_id
  pub kept : (x : ℕ) → x < ticket_size → s.ticket x ≡ ticket x

-- The context that a ticket's own title ID gives.
abbrev context : Buffer → TitleContext → TitleContext
context ticket s = record {
  use_title_ctx = true;
  title_id = double_word ticket ticket_title_id;
  ticket = copy s.ticket 0 ticket 0 ticket_size;
}

di_verify_own :
    (ticket : Buffer) (s : TitleContext)
    → di_verify (double_word ticket ticket_title_id) ticket s ≡ (EsError.ok, context ticket s)
unfolding di_verify
di_verify_own ticket s = ground arith

context-IsContextOf : (ticket : Buffer) (s : TitleContext) → IsContextOf ticket (context ticket s)
context-IsContextOf ticket s = record {
  used = refl;
  named = refl;
  kept = λ x lt. ground (arith, lt);
}

-- The image with the resource manager behind its check of a ticket.
abbrev pub with_es : IsoEnv → IsoEnv
with_es E = record {
  World = E.World × TitleContext;
  f_lseek = λ part o (w, c). let (r, w') = E.f_lseek part o w in (r, (w', c));
  f_read = λ part n (w, c). let (r, got, w') = E.f_read part n w in (r, got, (w', c));
  decrypt = λ key iv b n (w, c). let (r, b', w') = E.decrypt key iv b n w in (r, b', (w', c));
  di_verify = λ id ticket (w, c). let (r, c') = di_verify id ticket c in (r, (w, c'));
  stack = E.stack;
}

module _ (E : IsoEnv) where
  take_title_key-IsContextOf :
      (out out' : Buffer) (s s' : IsoState) (w w' : E.World) (c c' : TitleContext)
      → take_title_key (with_es E) out s (w, c) ≡ some (DiError.ok, out', s', (w', c'))
      → IsContextOf s'.partition c'
  unfolding take_title_key
  take_title_key-IsContextOf out out' s s' w w' c c' e =
      let e1 = rw (di_verify_own s.partition c) at e in
      let same : (s.partition ≡ s'.partition) × (context s.partition c ≡ c') = ground (arith, e1) in
      subst (λ p. IsContextOf p c') same.0
        (subst (IsContextOf s.partition) same.1 (context-IsContextOf s.partition c))

  open_partition-IsContextOf :
      (offset : ℕ) (out out' : Buffer) (s s' : IsoState) (w w' : E.World) (c c' : TitleContext)
      → open_partition (with_es E) offset out s (w, c) ≡ some (DiError.ok, out', s', (w', c'))
      → IsContextOf s'.partition c'
  unfolding open_partition
  open_partition-IsContextOf offset out out' s s' w w' c c' e =
      let s1 : IsoState = record s { partition_offset = offset } in
      elim (Option-cases (read_raw (with_es E) s1 offset partition_size s.partition (w, c))) [
        | inl failed ↦ absurd (ground (arith, e, failed))
        | inr ((fine, p, w1), read) ↦
            let s2 : IsoState = record s1 { partition = p } in
            elim (Option-cases (read_tmd (with_es E) out s2 w1)) [
              | inl failed ↦ absurd (ground (arith, e, read, failed))
              | inr ((r, out2, s3, (w2, c2)), tmd) ↦
                  let taken : take_title_key (with_es E) out2 s3 (w2, c2)
                      ≡ some (DiError.ok, out', s', (w', c')) =
                    ground (arith, e, read, tmd) in
                  take_title_key-IsContextOf out2 out' s3 s' w2 w' c2 c' taken
            ]
      ]

word_small : (b : Buffer) (x : ℕ) → ((y : ℕ) → b y < 256) → word b x < 2 ^ 32
word_small b x bytes = omega (arith, bytes x, bytes (x + 1), bytes (x + 2), bytes (x + 3))

double_word_small : (b : Buffer) (x : ℕ) → ((y : ℕ) → b y < 256) → double_word b x < 2 ^ 64
double_word_small b x bytes = omega (arith, word_small b x bytes, word_small b (x + 4) bytes)

module _ (E : IsoEnv) (R : Es) where
  -- After `OpenPartition` has succeeded on a disc image, with `DIVerify` of the resource manager as
  -- its check of the ticket, and left bytes below 256 in the partition's header, a request for the
  -- title ID whose vector fits is answered with the title
  -- ID of the partition's ticket, without a call of the real ES.
  pub opened_title_answered :
      (offset : ℕ) (out out' : Buffer) (s s' : IsoState) (w w' : E.World) (c c' : TitleContext)
      (base : ℕ) (m : Buffer) (v : R.World)
      → open_partition (with_es E) offset out s (w, c) ≡ some (DiError.ok, out', s', (w', c'))
      → ((x : ℕ) → s'.partition x < 256)
      → fits EsIoctl.get_title_id 0 1 m (vectors_at m base) ≡ true
      → (m' : Buffer) × (req_ioctlv R c' EsIoctl.get_title_id 0 1 base m v
          ≡ some (EsError.ok, m', v))
        × (double_word m' (vectors_at m base 0).address ≡ double_word s'.partition ticket_title_id)
  unfolding perform nulled
  opened_title_answered offset out out' s s' w w' c c' base m v e bytes fit =
      let context = open_partition-IsContextOf E offset out out' s s' w w' c c' e in
      let m1 = nulled_memory 1 base m in
      let at : (vectors_at m1 base 0).address ≡ (vectors_at m base 0).address =
        ground (arith, fit, vectors_at-nulled 1 base m 0) in
      let small = double_word_small s'.partition ticket_title_id bytes in
      (
        put_u64 m1 (vectors_at m base 0).address c'.title_id,
        rw (req_ioctlv-fits R c' EsIoctl.get_title_id 0 1 base m v fit)
            (rw at (rw context.used refl)),
        rw context.named (double_word-put_u64 m1 (vectors_at m base 0).address _ small),
      )

  -- After `OpenPartition` has succeeded on a disc image, with `DIVerify` of the resource manager as
  -- its check of the ticket, a request for a ticket view whose vectors fit and that brings no ticket
  -- is the real ES's command on a ticket with the bytes of the partition's.
  pub opened_ticket_viewed :
      (offset : ℕ) (out out' : Buffer) (s s' : IsoState) (w w' : E.World) (c c' : TitleContext)
      (base : ℕ) (m : Buffer) (v : R.World)
      → open_partition (with_es E) offset out s (w, c) ≡ some (DiError.ok, out', s', (w', c'))
      → fits EsIoctl.di_get_ticket_view 1 1 m (vectors_at m base) ≡ true
      → (vectors_at m base 0).len ≡ 0
      → (ticket : Buffer) × (req_ioctlv R c' EsIoctl.di_get_ticket_view 1 1 base m v
          ≡ some (
              Calls.di_get_ticket_view R
                (some ticket)
                (vectors_at m base 1).address
                (nulled_memory 2 base m)
                v))
        × ((x : ℕ) → x < ticket_size → ticket x ≡ s'.partition x)
  unfolding perform nulled
  opened_ticket_viewed offset out out' s s' w w' c c' base m v e fit empty =
      let context = open_partition-IsContextOf E offset out out' s s' w w' c c' e in
      let m1 = nulled_memory 2 base m in
      let at : (vectors_at m1 base 1).address ≡ (vectors_at m base 1).address =
        ground (arith, fit, vectors_at-nulled 2 base m 1) in
      let none_given : (vectors_at m1 base 0).len ≡ 0 =
        ground (arith, empty, vectors_at-nulled 2 base m 0) in
      (
        c'.ticket,
        rw (req_ioctlv-fits R c' EsIoctl.di_get_ticket_view 1 1 base m v fit)
            (rw at (rw none_given (rw context.used refl))),
        context.kept,
      )
