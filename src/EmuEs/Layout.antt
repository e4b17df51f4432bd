-- ===== src/EmuEs/Layout.antt =====
-- ios/IOS/EmuES.cpp: what the vectors of each command must look like, as a table, and that
-- `ReqIoctlv` checks them against it.
use saoirse.Prelude.{
  ap, ℕ, ◌+◌, ◌*◌, ◌≡◌, inl, inr, refl, Bool, true, false, ◌&&◌, ◌||◌, Option, none, some, List, [],
  ◌∷◌, ◌++◌, length, ◌==◌, leb, if◌then◌else◌, aligned, arith, Bool-cases,
}
use saoirse.Prelude.Buffers.{Buffer, word, double_word, shift}
use saoirse.EmuEs.EsError
use saoirse.EmuEs.Ioctl.{EsIoctl, ticket_size, ticket_view_size}
use saoirse.EmuEs.Calls.{Es}
use saoirse.EmuEs.Calls
use saoirse.EmuEs.Commands.{
  TitleContext, Vector, Answer, block_ios_reload, launch_title, put_u64, req_get_device_id,
  req_launch_title, req_get_owned_titles_count, req_get_titles_count, req_get_titles,
  req_get_title_contents_count, req_get_title_contents, req_get_num_ticket_views,
  req_get_ticket_views, req_get_tmd_view_size, req_get_tmd_view, req_di_get_ticket_view,
  req_get_data_dir, req_get_device_cert, req_get_title_id,
}
use saoirse.EmuEs.Requests.{vectors_at, run_ioctlv, req_ioctlv}
use saoirse.EmuEs.Nulled.{nulled, nulled_memory, null_vectors_exact, vectors_at-nulled}

-- The length that a vector must have: one number, a number for each item that the word in another
-- vector counts, one number or nothing, or any.
pub data Size : Type 0 where
  exactly optionally : ℕ → Size
  each : ℕ → ℕ → Size
  any : Size

abbrev pub Field : Type 0
Field = Size × ℕ

-- Lengths and alignments of the inputs and of the outputs.
abbrev pub layout : EsIoctl → Option (List Field × List Field)
layout EsIoctl.get_device_id = some ([], (exactly 4, 4) ∷ [])
layout EsIoctl.launch_title = some ((exactly 8, 4) ∷ (exactly ticket_view_size, 4) ∷ [], [])
layout EsIoctl.get_owned_titles_count = some ([], (exactly 4, 4) ∷ [])
layout EsIoctl.get_titles_count = some ([], (exactly 4, 4) ∷ [])
layout EsIoctl.get_titles = some ((exactly 4, 4) ∷ [], (each 8 0, 4) ∷ [])
layout EsIoctl.get_title_contents_count = some ((exactly 8, 4) ∷ [], (exactly 4, 4) ∷ [])
layout EsIoctl.get_title_contents = some ((exactly 8, 4) ∷ (exactly 4, 4) ∷ [], (each 4 1, 4) ∷ [])
layout EsIoctl.get_num_ticket_views = some ((exactly 8, 4) ∷ [], (exactly 4, 4) ∷ [])
layout EsIoctl.get_ticket_views =
    some ((exactly 8, 4) ∷ (exactly 4, 4) ∷ [], (each ticket_view_size 1, 4) ∷ [])
layout EsIoctl.get_tmd_view_size = some ((exactly 8, 4) ∷ [], (exactly 4, 4) ∷ [])
layout EsIoctl.get_tmd_view = some ((exactly 8, 4) ∷ [], (any, 4) ∷ [])
layout EsIoctl.di_get_ticket_view =
    some ((optionally ticket_size, 4) ∷ [], (exactly ticket_view_size, 1) ∷ [])
layout EsIoctl.get_data_dir = some ((exactly 8, 4) ∷ [], (exactly 30, 1) ∷ [])
layout EsIoctl.get_device_cert = some ([], (exactly 0x180, 4) ∷ [])
layout EsIoctl.get_title_id = some ([], (exactly 8, 4) ∷ [])
layout (EsIoctl.other n) = none

abbrev pub has_size : Buffer → (ℕ → Vector) → Size → ℕ → Bool
has_size m vec (exactly n) len = len == n
has_size m vec (optionally n) len = len == 0 || len == n
has_size m vec (each n i) len = len == word m (vec i).address * n
has_size m vec any len = true

-- An empty vector may have any address.
abbrev pub fits_field : Buffer → (ℕ → Vector) → ℕ → Field → Bool
fits_field m vec i (size, a) =
    has_size m vec size (vec i).len && ((vec i).len == 0 || aligned (vec i).address a)

abbrev pub fit_from : Buffer → (ℕ → Vector) → ℕ → List Field → Bool
fit_from m vec i [] = true
fit_from m vec i (f ∷ fs) = fits_field m vec i f && fit_from m vec (i + 1) fs

abbrev pub fits : EsIoctl → ℕ → ℕ → Buffer → (ℕ → Vector) → Bool
fits cmd ins outs m vec = elim (layout cmd) [
  | none ↦ false
  | some (inputs, outputs) ↦
      ins == length inputs && outs == length outputs && fit_from m vec 0 (inputs ++ outputs)
]

module _ (E : Es) where
  open E use {World}

  -- What a command does with vectors that fit.
  unfoldable pub perform :
      TitleContext → EsIoctl → (ℕ → Vector) → Buffer → World → Option (Answer E)
  perform s EsIoctl.launch_title vec m w =
      launch_title E block_ios_reload (double_word m (vec 0).address) (shift m (vec 1).address) m w
  perform s EsIoctl.get_device_id vec m w = some (Calls.get_device_id E (vec 0).address m w)
  perform s EsIoctl.get_owned_titles_count vec m w =
      some (Calls.get_owned_titles_count E (vec 0).address m w)
  perform s EsIoctl.get_titles_count vec m w = some (Calls.get_titles_count E (vec 0).address m w)
  perform s EsIoctl.get_titles vec m w =
      some (Calls.get_titles E (word m (vec 0).address) (vec 1).address m w)
  perform s EsIoctl.get_title_contents_count vec m w =
      some (Calls.get_title_contents_count E (double_word m (vec 0).address) (vec 1).address m w)
  perform s EsIoctl.get_title_contents vec m w = some (
      Calls.get_title_contents E (double_word m (vec 0).address) (word m (vec 1).address)
        (vec 1).address m w)
  perform s EsIoctl.get_num_ticket_views vec m w =
      some (Calls.get_num_ticket_views E (double_word m (vec 0).address) (vec 1).address m w)
  perform s EsIoctl.get_ticket_views vec m w = some (
      Calls.get_ticket_views E (double_word m (vec 0).address) (word m (vec 1).address)
        (vec 2).address m w)
  perform s EsIoctl.get_tmd_view_size vec m w =
      some (Calls.get_tmd_view_size E (double_word m (vec 0).address) (vec 1).address m w)
  perform s EsIoctl.get_tmd_view vec m w =
      some (Calls.get_tmd_view E (double_word m (vec 0).address) (vec 1).address (vec 1).len m w)
  perform s EsIoctl.get_data_dir vec m w =
      some (Calls.get_data_dir E (double_word m (vec 0).address) (vec 1).address m w)
  perform s EsIoctl.get_device_cert vec m w = some (Calls.get_device_cert E (vec 0).address m w)
  perform s EsIoctl.di_get_ticket_view vec m w =
      let kept = if s.use_title_ctx then some s.ticket else none in
      let ticket = if (vec 0).len == 0 then kept else some (shift m (vec 0).address) in
      some (Calls.di_get_ticket_view E ticket (vec 1).address m w)
  perform s EsIoctl.get_title_id vec m w =
      if s.use_title_ctx
      then some (EsError.ok, put_u64 m (vec 0).address s.title_id, w)
      else some (Calls.get_title_id E (vec 0).address m w)
  perform s (EsIoctl.other n) vec m w = some (EsError.invalid, m, w)

module _ (E : Es) (s : TitleContext) (ins outs : ℕ) (vec v : ℕ → Vector) (m : Buffer) where
  open E use {World}

  -- The case of a command against its row of the table, where `v` is what the loop leaves of `vec`.
  unfoldable Checks : EsIoctl → World → Type 0
  Checks cmd w =
      run_ioctlv E s cmd ins outs v m w
      ≡ (if fits cmd ins outs m vec then perform E s cmd v m w else some (EsError.invalid, m, w))

  run_ioctlv-Checks :
      ((i : ℕ) → v i ≡ nulled (ins + outs) vec i) → (cmd : EsIoctl) (w : World) → Checks cmd w
  unfolding run_ioctlv Checks perform nulled req_get_device_id req_get_owned_titles_count
      req_get_titles_count req_get_device_cert req_get_title_id req_get_titles
      req_get_title_contents_count req_get_num_ticket_views req_get_tmd_view_size req_get_tmd_view
      req_di_get_ticket_view req_get_data_dir req_launch_title req_get_title_contents
      req_get_ticket_views
  run_ioctlv-Checks h EsIoctl.get_device_id w = ground (arith, h 0)
  run_ioctlv-Checks h EsIoctl.get_owned_titles_count w = ground (arith, h 0)
  run_ioctlv-Checks h EsIoctl.get_titles_count w = ground (arith, h 0)
  run_ioctlv-Checks h EsIoctl.get_device_cert w = ground (arith, h 0)
  run_ioctlv-Checks h EsIoctl.get_title_id w = ground (arith, h 0)
  run_ioctlv-Checks h EsIoctl.get_titles w = ground (arith, h 0, h 1)
  run_ioctlv-Checks h EsIoctl.get_title_contents_count w = ground (arith, h 0, h 1)
  run_ioctlv-Checks h EsIoctl.get_num_ticket_views w = ground (arith, h 0, h 1)
  run_ioctlv-Checks h EsIoctl.get_tmd_view_size w = ground (arith, h 0, h 1)
  run_ioctlv-Checks h EsIoctl.get_tmd_view w = ground (arith, h 0, h 1)
  run_ioctlv-Checks h EsIoctl.di_get_ticket_view w = ground (arith, h 0, h 1)
  run_ioctlv-Checks h EsIoctl.get_data_dir w = ground (arith, h 0, h 1)
  run_ioctlv-Checks h EsIoctl.launch_title w = ground (arith, h 0, h 1)
  run_ioctlv-Checks h EsIoctl.get_title_contents w = ground (arith, h 0, h 1, h 2)
  run_ioctlv-Checks h EsIoctl.get_ticket_views w = ground (arith, h 0, h 1, h 2)
  run_ioctlv-Checks h (EsIoctl.other n) w = refl

-- Vectors that fit are few.
many_unfit :
    (ins outs : ℕ) (m : Buffer) (vec : ℕ → Vector) (cmd : EsIoctl)
    → (leb 32 ins || leb 32 outs) ≡ true
    → fits cmd ins outs m vec ≡ false
many_unfit ins outs m vec EsIoctl.get_device_id h = ground (arith, h)
many_unfit ins outs m vec EsIoctl.get_owned_titles_count h = ground (arith, h)
many_unfit ins outs m vec EsIoctl.get_titles_count h = ground (arith, h)
many_unfit ins outs m vec EsIoctl.get_device_cert h = ground (arith, h)
many_unfit ins outs m vec EsIoctl.get_title_id h = ground (arith, h)
many_unfit ins outs m vec EsIoctl.get_titles h = ground (arith, h)
many_unfit ins outs m vec EsIoctl.get_title_contents_count h = ground (arith, h)
many_unfit ins outs m vec EsIoctl.get_num_ticket_views h = ground (arith, h)
many_unfit ins outs m vec EsIoctl.get_tmd_view_size h = ground (arith, h)
many_unfit ins outs m vec EsIoctl.get_tmd_view h = ground (arith, h)
many_unfit ins outs m vec EsIoctl.di_get_ticket_view h = ground (arith, h)
many_unfit ins outs m vec EsIoctl.get_data_dir h = ground (arith, h)
many_unfit ins outs m vec EsIoctl.launch_title h = ground (arith, h)
many_unfit ins outs m vec EsIoctl.get_title_contents h = ground (arith, h)
many_unfit ins outs m vec EsIoctl.get_ticket_views h = ground (arith, h)
many_unfit ins outs m vec (EsIoctl.other n) h = refl

module _ (E : Es) (s : TitleContext) where
  open E use {World}

  -- For every command, counts and array of vectors: with 32 inputs or outputs or more, `ReqIoctlv`
  -- answers that the request is invalid and writes nothing. With fewer, it stores 0 to the pointer of
  -- each empty vector of the array and to no other byte; then, if the vectors were as the table says
  -- (their number, the length of each, read from the vector of a count where there is one, and the
  -- alignment of each that is not empty), it does what the command says on that memory and the
  -- vectors in it; if not, it answers that the request is invalid and neither calls the real ES nor
  -- writes more.
  pub req_ioctlv_exact :
      (cmd : EsIoctl) (ins outs base : ℕ) (m : Buffer) (w : World)
      → let m1 = nulled_memory (ins + outs) base m in
        req_ioctlv E s cmd ins outs base m w ≡ (
          if leb 32 ins || leb 32 outs
          then some (EsError.invalid, m, w)
          else if fits cmd ins outs m1 (vectors_at m base)
          then perform E s cmd (vectors_at m1 base) m1 w
          else some (EsError.invalid, m1, w))
  unfolding req_ioctlv Checks
  req_ioctlv_exact cmd ins outs base m w =
      let m1 = nulled_memory (ins + outs) base m in
      let vec = vectors_at m base in
      let v = vectors_at m1 base in
      rw (null_vectors_exact (ins + outs) base m) (
        ap (λ r. if leb 32 ins || leb 32 outs then some (EsError.invalid, m, w) else r)
          (run_ioctlv-Checks E s ins outs vec v m1 (vectors_at-nulled (ins + outs) base m) cmd w))

  -- Vectors that fit are fewer than 32, so the guard on their counts lets them through.
  pub req_ioctlv-fits :
      (cmd : EsIoctl) (ins outs base : ℕ) (m : Buffer) (w : World)
      → fits cmd ins outs (nulled_memory (ins + outs) base m) (vectors_at m base) ≡ true
      → let m1 = nulled_memory (ins + outs) base m in
        req_ioctlv E s cmd ins outs base m w ≡ perform E s cmd (vectors_at m1 base) m1 w
  req_ioctlv-fits cmd ins outs base m w fit =
      let m1 = nulled_memory (ins + outs) base m in
      elim (Bool-cases (leb 32 ins || leb 32 outs)) [
        | inl many ↦
            absurd (ground (arith, many_unfit ins outs m1 (vectors_at m base) cmd many, fit))
        | inr few ↦ ground (arith, req_ioctlv_exact cmd ins outs base m w, few, fit)
      ]
