-- ===== src/EmuDi/Guards.antt =====
-- What the requests to `~dev/di` let through: the table of patches, and reads of the raw disc.
use saoirse.Prelude.{
  refl, get_or, if◌then◌else◌, ℕ, ◌+◌, ◌*◌, ◌/◌, ◌^◌, ◌≤◌, ◌<◌, ◌≡◌, ◌∙◌, ◌⊎◌, inl, inr, arith,
  true, false, Option, some, List, [], ◌∷◌, ltb, ℤ, length, Bool-cases, Option-cases,
}
use saoirse.EmuFs.IosError
use saoirse.EmuDi.DiError
use saoirse.EmuDi.DiIoctl
use saoirse.EmuDi.Table.{DiEnv, Buffer, blit, patch_size, max_patches}
use saoirse.EmuDi.Disc.{DvdCommand, emu_ioctl, emu_unencrypted_read, word_offset_end, drive_done}
use saoirse.EmuDi.Requests.{
  DiState, Request, open_path, close, ioctl, ioctlv, ipc_reply, other, untouched, handle_request,
  handle_requests, do_new_ioctl, forward_ioctl, ioctl_read, ioctl_patch_dvd, req_ioctl, req_ioctlv,
  enomem, Output, patch_dvd,
}

module _ (E : DiEnv) where
  open E use {World}

  ioctl_read-same :
      (input : List ℕ) (io : Buffer) (io_len : ℕ) (s : DiState) (w : World) (a : Option ℤ)
      (o : Output) (s' : DiState) (w' : World)
      → ioctl_read E input io io_len s w ≡ some (a, o, s', w')
      → s' ≡ s
  unfolding ioctl_read
  ioctl_read-same input io io_len s w a o s' w' h = ground (arith, h)

  forward_ioctl-same :
      (cmd : ℕ) (input : List ℕ) (out : ℕ) (io : Buffer) (io_len : ℕ) (s : DiState) (w : World)
      (a : Option ℤ) (o : Output) (s' : DiState) (w' : World)
      → forward_ioctl E cmd input out io io_len s w ≡ some (a, o, s', w')
      → s' ≡ s
  unfolding forward_ioctl
  forward_ioctl-same cmd input out io io_len s w a o s' w' h = ground (arith, h)

  req_ioctl-sealed :
      (cmd : ℕ) (input : List ℕ) (out : ℕ) (io : Buffer) (io_len : ℕ) (s : DiState) (w : World)
      (a : Option ℤ) (o : Output) (s' : DiState) (w' : World)
      → s.game_started ≡ true
      → req_ioctl E cmd input out io io_len s w ≡ some (a, o, s', w')
      → s' ≡ s
  unfolding req_ioctl do_new_ioctl
  req_ioctl-sealed cmd input out io io_len s w a o s' w' started h = ground (
    arith,
    h,
    started,
    ioctl_read-same input io io_len s w a o s' w',
    forward_ioctl-same cmd input out io io_len s w a o s' w',
  )

  handle_request-sealed :
      (r : Request) (s : DiState) (w : World) (a : Option ℤ) (o : Output) (s' : DiState)
      (w' : World)
      → s.game_started ≡ true
      → handle_request E r s w ≡ some (a, o, s', w')
      → s' ≡ s
  unfolding handle_request req_ioctlv
  handle_request-sealed (open_path path) s w a o s' w' started h = ground (arith, h)
  handle_request-sealed (close fd) s w a o s' w' started h = ground (arith, h)
  handle_request-sealed (ioctl cmd input out io io_len) s w a o s' w' started h =
      req_ioctl-sealed cmd input out io io_len s w a o s' w' started h
  handle_request-sealed (ioctlv cmd n m vec) s w a o s' w' started h = ground (arith, h)
  handle_request-sealed (ipc_reply r) s w a o s' w' started h = ground (arith, h)
  handle_request-sealed (other cmd) s w a o s' w' started h = ground (arith, h)

  -- Once the game has started, no sequence of requests changes the table of patches, its count or
  -- any other variable of the module.
  pub started_is_sealed :
      (rs : List Request) (s s' : DiState) (w w' : World)
      → s.game_started ≡ true
      → handle_requests E rs s w ≡ some (s', w')
      → s' ≡ s
  unfolding handle_requests
  started_is_sealed [] s s' w w' started h = ground (arith, h)
  started_is_sealed (r ∷ rs) s s' w w' started h = elim (Option-cases (handle_request E r s w)) [
    | inl stop ↦ absurd (ground (arith, stop, h))
    | inr ((a, o, t, v), e) ↦
        let same = handle_request-sealed r s w a o t v started e in
        let rest : handle_requests E rs t v ≡ some (s', w') = ground (arith, e, h) in
        started_is_sealed rs t s' v w' (ground (arith, same, started)) rest ∙ same
  ]

  -- An unencrypted read of less than 2^32 - 3 bytes at a 32-bit offset that the emulated drive
  -- reports as done lies wholly in the first 0x14000 words of the disc.
  pub unencrypted_read_in_range :
      (block : DvdCommand) (out out_len : ℕ) (bytes : List ℕ) (w w' : World)
      → block.args 0 + 3 < 2 ^ 32
      → block.args 1 < 2 ^ 32
      → emu_ioctl E block DiIoctl.unencrypted_read out out_len w ≡ (DiError.ok, bytes, w')
      → block.args 1 + (block.args 0 + 3) / 4 ≤ 0x14000
  unfolding emu_ioctl emu_unencrypted_read word_offset_end drive_done
  unencrypted_read_in_range block out out_len bytes w w' small word h = ground (arith, h)

  -- Before the game has started, the command that installs patches replies success to an input of
  -- 1 to 6400 bytes: byte by byte the table starts with the input and goes on as before, and the count
  -- is that of the whole entries, at most 200. To a longer input it replies that memory is short and
  -- leaves the table, with the whole entries of the refused input, at least 200, as its count.
  pub patch_dvd_exact :
      (input : List ℕ) (out : ℕ) (io : Buffer) (io_len : ℕ) (s : DiState) (w : World)
      → s.game_started ≡ false
      → 0 < length input
      → (s' : DiState) × (s'
          ≡ record s { di_patches = s'.di_patches; di_num_patches = length input / patch_size })
        × (((length input ≤ 6400)
              × (handle_request E (ioctl patch_dvd input out io io_len) s w
                  ≡ some (some IosError.ok, untouched, s', w))
              × (s'.di_num_patches ≤ 200)
              × ((x : ℕ)
                  → s'.di_patches x
                    ≡ (if ltb x (length input) then get_or input x 0 else s.di_patches x)))
            ⊎ ((6400 < length input)
                × (handle_request E (ioctl patch_dvd input out io io_len) s w
                    ≡ some (some enomem, untouched, s', w))
                × (200 ≤ s'.di_num_patches)
                × (s'.di_patches ≡ s.di_patches)))
  unfolding handle_request req_ioctl do_new_ioctl ioctl_patch_dvd
  patch_dvd_exact input out io io_len s w started some_input =
      let counted : DiState = record s { di_num_patches = length input / patch_size } in
      elim (Bool-cases (ltb (max_patches * patch_size) (length input))) [
        | inl long ↦ (
          counted,
          refl,
          inr (ground (arith, long), ground (arith, long, started), ground (arith, long), refl),
        )
        | inr fits ↦ (
          record counted { di_patches = blit s.di_patches 0 input },
          refl,
          inl (
            ground (arith, fits),
            ground (arith, fits, started),
            ground (arith, fits),
            λ x. ground arith,
          ),
        )
      ]
