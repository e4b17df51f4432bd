-- ===== src/EmuEs/Frame.antt =====
-- ios/IOS/EmuES.cpp: which memory a request may change.
use saoirse.Prelude.{
  ◌||◌, ℕ, ◌+◌, ◌*◌, ◌<◌, ◌≤◌, ◌^◌, ◌≡◌, ◌≢◌, sym, ap, ◌∙◌, inl, inr, refl, Bool, true, false, ◌&&◌,
  Option, none, some, List, [], ltb, leb, arith, ℤ, u32, Bool-cases,
}
use saoirse.Prelude.Buffers.{Buffer, word}
use saoirse.EmuEs.EsError
use saoirse.EmuEs.Ioctl.{EsIoctl, ticket_view_size, number}
use saoirse.EmuEs.Calls.{Es, InVector, call_out, store, store_inside, store_outside}
use saoirse.EmuEs.Calls
use saoirse.EmuEs.Commands.{TitleContext, Vector, Answer, launch_title, put_u64}
use saoirse.EmuEs.Requests.{vectors_at, req_ioctlv}
use saoirse.EmuEs.Nulled.{nulled, nulled_memory, vectors_at-nulled, nulled_memory_outside}
use saoirse.EmuEs.Layout.{fits, perform, req_ioctlv_exact, req_ioctlv-fits}

-- A byte that a vector holds.
abbrev pub holds : Vector → ℕ → Bool
holds v x = leb v.address x && ltb x (v.address + v.len)

-- A byte of memory after an answer.
abbrev pub byte_of : (E : Es) → Buffer → Option (Answer E) → ℕ → ℕ
byte_of E m none x = m x
byte_of E m (some (r, m', w)) x = m' x

from_byte :
    (E : Es) (m : Buffer) {a : Option (Answer E)} {r : ℤ} {m' : Buffer} {w' : E.World} {x : ℕ}
    → a ≡ some (r, m', w')
    → byte_of E m a x ≡ m x
    → m' x ≡ m x
from_byte E m {x = x} e kept = sym (ap (λ o. byte_of E m o x) e) ∙ kept

put_u64_outside :
    (m : Buffer) (at n x : ℕ) → (leb at x && ltb x (at + 8)) ≡ false → put_u64 m at n x ≡ m x
put_u64_outside m at n x apart = ground (arith, apart)

module _ (E : Es) (s : TitleContext) (ins outs : ℕ) (vec v : ℕ → Vector) (m : Buffer) where
  open E use {World}

  module _ (w w' : World) (r : ℤ) (m' : Buffer) (x : ℕ)
      (h : (i : ℕ) → v i ≡ nulled (ins + outs) vec i)
      (outside : (i : ℕ) → ins ≤ i → i < ins + outs → holds (vec i) x ≡ false) where
    -- A call that stores in the one output vector, and no more than it has room for.
    call_kept :
        (cmd : EsIoctl) (given : List InVector) (i len : ℕ)
        → (ins ≡ i) × (outs ≡ 1) × (len ≤ (vec i).len)
        → some (call_out E cmd given (v i).address len m w) ≡ some (r, m', w')
        → m' x ≡ m x
    unfolding call_out nulled
    call_kept cmd given i len (at, one, room) e =
        let (r1, written, w1) = E.ioctlv (number cmd) given (some len) w in
        let out : holds (vec i) x ≡ false =
          outside i (omega (arith, at)) (omega (arith, at, one)) in
        let apart : (leb (v i).address x && ltb x ((v i).address + len)) ≡ false =
          ground (arith, h i, out, room) in
        let kept = store_outside m (v i).address len written x apart in from_byte E m e kept

    -- A command that fits stores in its output vector, `GetTitleContents` apart.
    perform_kept :
        (cmd : EsIoctl)
        → cmd ≢ EsIoctl.get_title_contents
        → fits cmd ins outs m vec ≡ true
        → perform E s cmd v m w ≡ some (r, m', w')
        → m' x ≡ m x
    unfolding perform launch_title nulled
    perform_kept EsIoctl.get_device_id ne fit e = call_kept _ [] 0 4 (ground (arith, fit)) e
    perform_kept EsIoctl.get_owned_titles_count ne fit e =
        call_kept _ [] 0 4 (ground (arith, fit)) e
    perform_kept EsIoctl.get_titles_count ne fit e = call_kept _ [] 0 4 (ground (arith, fit)) e
    perform_kept EsIoctl.get_device_cert ne fit e = call_kept _ [] 0 0x180 (ground (arith, fit)) e
    perform_kept EsIoctl.get_title_contents_count ne fit e =
        call_kept _ _ 1 4 (ground (arith, fit)) e
    perform_kept EsIoctl.get_num_ticket_views ne fit e = call_kept _ _ 1 4 (ground (arith, fit)) e
    perform_kept EsIoctl.get_tmd_view_size ne fit e = call_kept _ _ 1 4 (ground (arith, fit)) e
    perform_kept EsIoctl.get_data_dir ne fit e = call_kept _ _ 1 30 (ground (arith, fit)) e
    perform_kept EsIoctl.di_get_ticket_view ne fit e =
        call_kept _ _ 1 ticket_view_size (ground (arith, fit)) e
    perform_kept EsIoctl.get_titles ne fit e =
        call_kept _ _ 1 (u32 (8 * word m (v 0).address)) (ground (arith, fit, h 0)) e
    perform_kept EsIoctl.get_ticket_views ne fit e =
        call_kept _ _ 2 (u32 (ticket_view_size * word m (v 1).address)) (ground (arith, fit, h 1)) e
    perform_kept EsIoctl.get_tmd_view ne fit e =
        call_kept _ _ 1 (v 1).len (ground (arith, fit, h 1)) e
    perform_kept EsIoctl.get_title_contents ne fit e = absurd (ne refl)
    perform_kept EsIoctl.launch_title ne fit e = from_byte E m e refl
    perform_kept EsIoctl.get_title_id ne fit e = elim (Bool-cases s.use_title_ctx) [
      | inl context ↦
          let at : (ins ≡ 0) × (outs ≡ 1) × (8 ≡ (vec 0).len) = ground (arith, fit) in
          let out : holds (vec 0) x ≡ false = outside 0 (omega (arith, at)) (omega (arith, at)) in
          let apart : (leb (v 0).address x && ltb x ((v 0).address + 8)) ≡ false =
            ground (arith, h 0, out, at) in
          let stored : some (EsError.ok, put_u64 m (v 0).address s.title_id, w) ≡ some (r, m', w') =
            ground (arith, context, e) in
          from_byte E m {a = some (EsError.ok, put_u64 m (v 0).address s.title_id, w)} stored
            (put_u64_outside m (v 0).address s.title_id x apart)
      | inr none_kept ↦
          let called : some (Calls.get_title_id E (v 0).address m w) ≡ some (r, m', w') =
            ground (arith, none_kept, e) in
          call_kept _ [] 0 8 (ground (arith, fit)) called
    ]
    perform_kept (EsIoctl.other n) ne fit e = from_byte E m e refl

module _ (E : Es) (s : TitleContext) where
  open E use {World}

  -- Whatever the real ES answers and writes to the vectors of its calls: a request for any command
  -- but `GetTitleContents`, with any counts and array of vectors, leaves every byte of memory alone
  -- that is neither in the array, of 8 bytes for each vector, nor in one of the output vectors.
  pub req_ioctlv_frame :
      (cmd : EsIoctl) (ins outs base : ℕ) (m m' : Buffer) (w w' : World) (r : ℤ) (x : ℕ)
      → cmd ≢ EsIoctl.get_title_contents
      → ((i : ℕ) → ins ≤ i → i < ins + outs → holds (vectors_at m base i) x ≡ false)
      → (leb base x && ltb x (base + 8 * (ins + outs))) ≡ false
      → req_ioctlv E s cmd ins outs base m w ≡ some (r, m', w')
      → m' x ≡ m x
  req_ioctlv_frame cmd ins outs base m m' w w' r x ne outside apart e =
      let exact = req_ioctlv_exact E s cmd ins outs base m w in
      let m1 = nulled_memory (ins + outs) base m in
      let vec = vectors_at m base in
      let v = vectors_at m1 base in
      let before : m1 x ≡ m x = nulled_memory_outside (ins + outs) base m x apart in
      elim (Bool-cases (leb 32 ins || leb 32 outs)) [
        | inl many ↦
            let refused : some (EsError.invalid, m, w) ≡ some (r, m', w') =
              ground (arith, exact, many, e) in
            from_byte E m refused refl
        | inr few ↦ elim (Bool-cases (fits cmd ins outs m1 vec)) [
          | inl fit ↦
              let done : perform E s cmd v m1 w ≡ some (r, m', w') =
                ground (arith, exact, few, fit, e) in
              perform_kept E s ins outs vec v m1 w w' r m' x (vectors_at-nulled (ins + outs) base m)
                outside cmd ne fit done
              ∙ before
          | inr unfit ↦
              let refused : some (EsError.invalid, m1, w) ≡ some (r, m', w') =
                ground (arith, exact, few, unfit, e) in
              from_byte E m1 refused refl ∙ before
        ]
      ]

  -- Accepted with a content vector of fewer than 2^32 bytes, `GetTitleContents` has the real ES
  -- write the contents, as many bytes as the content vector has, to the vector of the count, which
  -- has four: each byte that the ES writes is stored from the count's address on.
  pub contents_overrun :
      (base : ℕ) (m : Buffer) (w : World) (given : ℕ → ℕ)
      → let vec = vectors_at m base in
        fits EsIoctl.get_title_contents 2 1 (nulled_memory 3 base m) vec ≡ true
        → (vec 2).len < 2 ^ 32
        → ((ins : List InVector) (x : ℕ)
            → (E.ioctlv 0x11 ins (some (vec 2).len) w).1 x ≡ some (given x))
        → (x : ℕ) → x < (vec 2).len
        → byte_of E m (req_ioctlv E s EsIoctl.get_title_contents 2 1 base m w) ((vec 1).address + x)
          ≡ given x
  unfolding perform call_out nulled number
  contents_overrun base m w given fit small gives x inside =
      let m1 = nulled_memory 3 base m in
      let vec = vectors_at m base in
      let v = vectors_at m1 base in
      let at : (v 1).address ≡ (vec 1).address =
        ground (arith, fit, vectors_at-nulled 3 base m 1) in
      let size : u32 (4 * word m1 (vec 1).address) ≡ (vec 2).len = ground (arith, fit, small) in
      rw (req_ioctlv-fits E s EsIoctl.get_title_contents 2 1 base m w fit)
        (rw at (rw size (store_inside m1 (vec 1).address (vec 2).len _ x _ inside (gives _ x))))
