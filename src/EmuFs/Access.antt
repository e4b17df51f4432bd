-- ===== src/EmuFs/Access.antt =====
-- ios/IOS/EmuFS.cpp, reading, writing and seeking: what the mode allows, and where a seek goes.
use saoirse.Prelude.{
  ◌∙◌, ℕ, ◌≤◌, ◌<◌, ◌^◌, ◌≡◌, true, false, not, ◌&&◌, ◌⊎◌, inl, inr, refl, if◌then◌else◌, some,
  List, arith, ℤ, pos, negsuc, ◌+ℤ◌, pos_part, neg_part, length, ◌==◌,
}
use saoirse.EmuFs.IsfsError
use saoirse.EmuFs.Env.{Env, no_output, is_ok}
use saoirse.EmuFs.Types.{in_array, to_isfs_error, State, Reply, fil, can_read, can_write}
use saoirse.EmuFs.Table.{slot, get_fil, is_file_descriptor_valid}
use saoirse.EmuFs.Requests.{say, put, req_read, req_write, req_seek, seek_to, seek_base, add_offset}

module _ (E : Env) where
  -- A read that is answered: unless the descriptor is that of a file in use which was opened for
  -- reading, and the length is not 0, it changes nothing and gives no bytes; where it is, the other
  -- slots, the direct files, and the slot's mode and marks stay as they were.
  pub read_needs_mode :
      (fd : ℤ) (len : ℕ) (s s' : State E) (r : Reply E)
      → req_read E fd len s ≡ some (r, s')
      → let allowed =
          is_file_descriptor_valid E s.files fd
          && not (len == 0)
          && can_read (s.files (slot fd)).mode in
        (allowed ≡ false → (s' ≡ s) × (r.out ≡ no_output))
        × (allowed ≡ true
            → (s'.direct ≡ s.direct)
              × ((j : ℕ) → (slot fd == j) ≡ false → s'.files j ≡ s.files j)
              × ((s'.files (slot fd)).mode ≡ (s.files (slot fd)).mode)
              × ((s'.files (slot fd)).in_use ≡ (s.files (slot fd)).in_use)
              × ((s'.files (slot fd)).fil_opened ≡ (s.files (slot fd)).fil_opened))
  unfolding req_read
  read_needs_mode fd len s s' r h = (
    λ a. (ground arith, ground arith),
    λ a. (ground arith, λ j ne. ground arith, ground arith, ground arith, ground arith),
  )

  -- A write that is answered: unless the descriptor is that of a file in use which was opened for
  -- writing, and the length is not 0, it changes nothing and gives no bytes; where it is, the other
  -- slots, the direct files, and the slot's mode and marks stay as they were.
  pub write_needs_mode :
      (fd : ℤ) (input : List ℕ) (s s' : State E) (r : Reply E)
      → req_write E fd input s ≡ some (r, s')
      → let allowed =
          is_file_descriptor_valid E s.files fd
          && not (length input == 0)
          && can_write (s.files (slot fd)).mode in
        (allowed ≡ false → (s' ≡ s) × (r.out ≡ no_output))
        × (allowed ≡ true
            → (s'.direct ≡ s.direct)
              × ((j : ℕ) → (slot fd == j) ≡ false → s'.files j ≡ s.files j)
              × ((s'.files (slot fd)).mode ≡ (s.files (slot fd)).mode)
              × ((s'.files (slot fd)).in_use ≡ (s.files (slot fd)).in_use)
              × ((s'.files (slot fd)).fil_opened ≡ (s.files (slot fd)).fil_opened))
  unfolding req_write
  write_needs_mode fd input s s' r h = (
    λ a. (ground arith, ground arith),
    λ a. (ground arith, λ j ne. ground arith, ground arith, ground arith, ground arith),
  )

  -- a signed 32-bit number
  abbrev pub IsS32 : ℤ → Type 0
  IsS32 z = (pos_part z < 2 ^ 31) × (neg_part z ≤ 2 ^ 31)

  add_offset_pos :
      (base : ℕ) (w : ℤ) (t : ℕ)
      → base < 2 ^ 31
      → IsS32 w
      → pos base +ℤ w ≡ pos t
      → add_offset E base w ≡ t
  add_offset_pos base w t hb hw e = ground arith

  add_offset_neg :
      (base : ℕ) (w : ℤ) (n : ℕ)
      → base < 2 ^ 31
      → IsS32 w
      → pos base +ℤ w ≡ negsuc n
      → 2 ^ 63 < add_offset E base w
  add_offset_neg base w n hb hw e = ground arith

  -- Where `whence` counts from: 0 from the start, 1 from the position, 2 from the end.
  abbrev pub IsOrigin : ℤ → ℕ → ℕ → ℕ → Type 0
  IsOrigin whence tell size base =
      ((whence ≡ pos 0) × (base ≡ 0))
      ⊎ (((whence ≡ pos 1) × (base ≡ tell)) ⊎ ((whence ≡ pos 2) × (base ≡ size)))

  origin_in_file :
      (whence : ℤ) (tell size base : ℕ) → tell ≤ size → IsOrigin whence tell size base → base ≤ size
  origin_in_file whence tell size base h o = elim o [
    | inl (e, z) ↦ omega (arith, z)
    | inr later ↦ elim later [ inl (e, z) ↦ omega (arith, z, h) | inr (e, z) ↦ omega (arith, z) ]
  ]

  seek_base-origin :
      (whence : ℤ) (tell size base : ℕ)
      → IsOrigin whence tell size base
      → seek_base E whence tell size ≡ some base
  seek_base-origin whence tell size base o = elim o [
    | inl (e, z) ↦ rw e (rw z refl)
    | inr later ↦ elim later [ inl (e, z) ↦ rw e (rw z refl) | inr (e, z) ↦ rw e (rw z refl) ]
  ]

  -- A valid descriptor is an index of the array of files.
  pub valid_in_array :
      (fd : ℤ) (s : State E) → is_file_descriptor_valid E s.files fd ≡ true → in_array fd ≡ true
  unfolding is_file_descriptor_valid
  valid_in_array fd s valid = ground (arith, valid)

  req_seek-seek_to :
      (fd where_ whence : ℤ) (s : State E) (o : E.Fil) (base : ℕ)
      → is_file_descriptor_valid E s.files fd ≡ true
      → get_fil E (s.files (slot fd)).object ≡ some o
      → seek_base E whence (E.f_tell o) (E.f_size o) ≡ some base
      → req_seek E fd where_ whence s ≡ seek_to E (slot fd) o (add_offset E base where_) s
  unfolding req_seek
  req_seek-seek_to fd where_ whence s o base valid is_o origin =
      rw (valid, req_seek)
        (rw (valid_in_array fd s valid, req_seek) (rw (is_o, req_seek) (rw (origin, req_seek))))

  -- For a valid descriptor of a file shorter than 2 GiB, a 32-bit distance and a base that is 0, the
  -- position or the size as `whence` is 0, 1 or 2: a seek whose target, as an integer, lies outside
  -- the file gives Invalid and changes nothing; one to the position itself gives the position and
  -- calls nothing; any other target inside is where `f_lseek` is sent, the file becomes what that
  -- call leaves, and the result is the target where the call succeeds and its error where it fails.
  pub seek_exact :
      (fd where_ whence : ℤ) (s : State E) (o : E.Fil) (base : ℕ)
      → is_file_descriptor_valid E s.files fd ≡ true
      → get_fil E (s.files (slot fd)).object ≡ some o
      → E.f_size o < 2 ^ 31
      → E.f_tell o ≤ E.f_size o
      → IsS32 where_
      → IsOrigin whence (E.f_tell o) (E.f_size o) base
      → ((t : ℕ)
          → pos base +ℤ where_ ≡ pos t
          → E.f_size o < t
          → req_seek E fd where_ whence s ≡ say E IsfsError.invalid s)
        × ((n : ℕ)
            → pos base +ℤ where_ ≡ negsuc n
            → req_seek E fd where_ whence s ≡ say E IsfsError.invalid s)
        × (pos base +ℤ where_ ≡ pos (E.f_tell o)
            → req_seek E fd where_ whence s ≡ say E (pos (E.f_tell o)) s)
        × ((t : ℕ)
            → pos base +ℤ where_ ≡ pos t
            → t ≤ E.f_size o
            → (t == E.f_tell o) ≡ false
            → let (fret, o', w) = E.f_lseek t o s.world in
              req_seek E fd where_ whence s
              ≡ say E
                  (if is_ok fret then pos t else to_isfs_error fret)
                  (put E s (slot fd) (record (s.files (slot fd)) { object = fil o' }) w))
  seek_exact fd where_ whence s o base valid is_o small at w32 origin =
      let in_file = origin_in_file whence (E.f_tell o) (E.f_size o) base at origin in
      let goes =
        req_seek-seek_to fd where_ whence s o base valid is_o
          (seek_base-origin whence (E.f_tell o) (E.f_size o) base origin) in
      let target = λ (t : ℕ) (e : pos base +ℤ where_ ≡ pos t).
        add_offset_pos base where_ t (omega arith) w32 e in
      (
        λ t e big. goes ∙ unfold seek_to in rw (target t e) (ground arith),
        λ n e.
            goes
            ∙ unfold seek_to in ground (arith, add_offset_neg base where_ n (omega arith) w32 e),
        λ e. goes ∙ unfold seek_to in rw (target (E.f_tell o) e) (ground arith),
        λ t e inside ne. goes ∙ unfold seek_to in rw (target t e) (ground arith),
      )
