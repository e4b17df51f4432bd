-- ===== src/EmuFs/Errors.antt =====
-- The error codes that FatFs results are turned into.
use saoirse.Prelude.{◌≡◌, true, false, arith, is_neg}
use saoirse.EmuFs.IsfsError
use saoirse.EmuFs.Env.{FResult, is_ok}
use saoirse.EmuFs.Types.{to_isfs_error}

pub is_neg-to_isfs_error : (f : FResult) → is_ok f ≡ false → is_neg (to_isfs_error f) ≡ true
unfolding is_ok to_isfs_error
is_neg-to_isfs_error f h = ground arith

pub to_isfs_error-ok : (f : FResult) → is_ok f ≡ true → to_isfs_error f ≡ IsfsError.ok
unfolding is_ok to_isfs_error
to_isfs_error-ok f h = ground arith
