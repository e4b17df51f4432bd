-- ===== src/EmuFs/Inv.antt =====
-- What holds of the descriptor tables between two requests.
pub mod Files
pub mod Open
pub mod Commands
pub mod Vectors
pub mod Requests
use saoirse.Prelude.{
  ℕ, ◌+◌, ◌<◌, ◌≡◌, ◌⊎◌, Bool, true, false, ◌&&◌, ◌||◌, not, Option, none, some, arith, ltb, ℤ, pos,
  negsuc, is_neg, eq_ℤ,
}
use saoirse.EmuFs.IsfsError
use saoirse.EmuFs.Env.{Env}
use saoirse.EmuFs.Types.{ProxyFile, DirectFile, Object, State, blank, fil, dir, max_files}
use saoirse.EmuFs.Table.{slot, get_fil, get_dir, is_file_descriptor_valid}

-- the descriptor of a direct file: none yet, or the index of a slot
abbrev pub is_direct_fd : ℤ → Bool
is_direct_fd fd = eq_ℤ fd IsfsError.not_found || (not (is_neg fd) && ltb (slot fd) max_files)

module _ (E : Env) where
  abbrev pub is_fil : Object E → Bool
  is_fil (fil o) = true
  is_fil (dir d) = false
  is_fil blank = false

  abbrev pub is_a_dir : Object E → Bool
  is_a_dir (fil o) = false
  is_a_dir (dir d) = true
  is_a_dir blank = false

  -- A slot whose file is not being opened: a directory is in use, holds a `DIR` and no open file;
  -- an open file is a `FIL`.
  pub record IsSound (f : ProxyFile E) : Type 0 where
    pub dir_in_use : f.is_dir ≡ true → f.in_use ≡ true
    pub dir_object : f.is_dir ≡ true → is_a_dir f.object ≡ true
    pub dir_closed : f.is_dir ≡ true → f.fil_opened ≡ false
    pub fil_object : f.fil_opened ≡ true → is_fil f.object ≡ true

  -- Between requests a slot in use that is no directory has an open file, too.
  pub record IsReady (f : ProxyFile E) : Type 0 where
    pub sound : IsSound f
    pub open sound use *
    pub in_use_opened : f.in_use ≡ true → f.is_dir ≡ false → f.fil_opened ≡ true

  pub record Inv (s : State E) : Type 0 where
    pub files_ready : (j : ℕ) → IsReady (s.files j)
    pub direct_fds : (j : ℕ) → is_direct_fd (s.direct j).fd ≡ true
