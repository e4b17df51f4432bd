-- ===== src/EmuDi/Tests.antt =====
-- Runs of the emulated disc over two patches: the disc holds ones and the patch files sevens.
use saoirse.Prelude.{
  get_or, ltb, zero, suc, ℕ, ◌+◌, ◌-◌, ◌*◌, ◌/◌, ◌≤◌, ◌<◌, ◌≡◌, ◌⊎◌, arith, true, some, List, [],
  ◌∷◌, refl, ◌==◌, if◌then◌else◌, pos, replicate, codes, str_eq,
}
use saoirse.EmuFs.Env.{fr_ok}
use saoirse.EmuFs.IosError
use saoirse.EmuDi.DiError
use saoirse.EmuDi.DiIoctl
use saoirse.EmuDi.Table.{DiEnv, Buffer, Patches, search_loop, search_patch}
use saoirse.EmuDi.Disc.{DvdCommand, emu_ioctl, emu_unencrypted_read, word_offset_end, drive_done}
use saoirse.EmuDi.Search.{IsTable, IsResult, search_patch_exact}
use saoirse.EmuDi.Read.{read_disc, patched}
use saoirse.EmuDi.Requests.{
  DiState, Request, ioctl, open_path, untouched, handle_request, handle_requests, do_new_ioctl,
  forward_ioctl, req_ioctl, patch_dvd, di_reset, enomem,
}
use saoirse.EmuDi.Straddle.{straddling_read_zeroes}
use saoirse.EmuDi.Guards.{started_is_sealed, patch_dvd_exact}

abbrev demo : DiEnv
demo = record {
  World = ℕ;
  f_lseek = λ n f w. (fr_ok, record f { fptr = n }, w + 1);
  f_read = λ n f w. (fr_ok, replicate n 7, record f { fptr = f.fptr + n }, w + 1);
  read_from_partition = λ offset n w. (true, replicate n 1, w + 1);
  unencrypted_read = λ offset n w. (true, replicate n 1, w + 1);
  read_disk_id = λ w. (true, replicate 32 1, w + 1);
  open_partition = λ offset w. (DiError.ok, [], w + 1);
  is_inserted = λ w. true;
  inquiry = λ w. (DiError.ok, replicate 32 0, w + 1);
  drive_read = λ n offset w. (DiError.ok, replicate n 1, w + 1);
  ios_close = λ fd w. (pos 0, w + 1);
  ios_ioctl = λ cmd input n w. (pos 1, [], w + 1);
  ios_ioctlv = λ cmd n m vec w. (pos 1, (λ k. []), w + 1);
}

-- Sixteen words from the first patched offset, and four after them.
abbrev two : Patches
two k = record {
  disc_offset = if k == 0 then 0x80000000 else 0x80000010;
  disc_length = if k == 0 then 16 else 4;
  start_cluster = 5;
  cur_cluster = 5;
  file_offset = 0;
  drv = 0;
}

two-IsTable : IsTable two 2
two-IsTable = record {
  nonempty = λ k h. ground (arith, h);
  no_wrap = λ k h. ground (arith, h);
  sorted = λ a b lt h. ground (arith, lt, h);
}

abbrev blank : Buffer
blank x = 9

search_patch_exact_example : IsResult two 2 0x80000011 two-IsTable (search_patch two 2 0x80000011)
search_patch_exact_example = search_patch_exact two 2 0x80000011 two-IsTable

searches : (search_patch two 2 0x80000011 ≡ 1) × (search_patch two 2 0x80000014 ≡ 2)
unfolding search_patch search_loop
searches = (refl, refl)

straddling_read_zeroes_example :
    (b' : Buffer) × (w' : ℕ) × (read_disc demo true two 2 0x7ffffffe 16 blank 0
      ≡ some (DiError.ok, b', w'))
    × ((x : ℕ) → (patched - 0x7ffffffe) * 4 ≤ x → x < 16 → b' x ≡ 0)
straddling_read_zeroes_example =
    straddling_read_zeroes demo true two 2 0x7ffffffe 16 blank 0 two-IsTable
      (λ k h. ground (arith, h)) (omega arith) (omega arith) (omega arith)

-- A file whose bytes are their own positions, and patches that start at its byte 40.
abbrev positions : ℕ → ℕ → List ℕ
positions zero at = []
positions (suc n) at = at ∷ positions n (at + 1)

abbrev counting : DiEnv
counting = record demo {
  f_read = λ n f w. (fr_ok, positions n f.fptr, record f { fptr = f.fptr + n }, w + 1);
}

abbrev moved : Patches
moved k = record (two k) { file_offset = 40 }

-- the bytes of two entries
abbrev entries : List ℕ
entries = replicate 64 1

abbrev started : DiState
started = record di_reset { game_started = true }

-- A new table and an open, after the game has started.
abbrev late : List Request
late = ioctl patch_dvd (replicate 32 1) 0 blank 0 ∷ open_path (codes "~dev/di") ∷ []

late_runs : handle_requests demo late started 0 ≡ some (started, 0)
unfolding handle_requests handle_request req_ioctl do_new_ioctl forward_ioctl emu_ioctl str_eq
    di_reset
late_runs = refl

started_is_sealed_example : started ≡ started
started_is_sealed_example = started_is_sealed demo late started started 0 0 refl late_runs

abbrev raw_read : DvdCommand
raw_read = record { cmd = DiIoctl.unencrypted_read; args = λ k. if k == 0 then 32 else 0x13ff8 }

demo_reads_disc :
    emu_ioctl demo raw_read DiIoctl.unencrypted_read 0 32 0 ≡ (DiError.ok, replicate 32 1, 1)
unfolding emu_ioctl emu_unencrypted_read word_offset_end drive_done
demo_reads_disc = refl

patch_dvd_exact_example :
    (s' : DiState) × (s' ≡ record di_reset { di_patches = s'.di_patches; di_num_patches = 64 / 32 })
    × (((64 ≤ 6400)
          × (handle_request demo (ioctl patch_dvd entries 0 blank 0) di_reset 0
              ≡ some (some IosError.ok, untouched, s', 0))
          × (s'.di_num_patches ≤ 200)
          × ((x : ℕ)
              → s'.di_patches x ≡ (if ltb x 64 then get_or entries x 0 else di_reset.di_patches x)))
        ⊎ ((6400 < 64)
            × (handle_request demo (ioctl patch_dvd entries 0 blank 0) di_reset 0
                ≡ some (some enomem, untouched, s', 0))
            × (200 ≤ s'.di_num_patches)
            × (s'.di_patches ≡ di_reset.di_patches)))
unfolding di_reset
patch_dvd_exact_example = patch_dvd_exact demo entries 0 blank 0 di_reset 0 refl (omega arith)
