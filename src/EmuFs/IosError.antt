-- ===== src/EmuFs/IosError.antt =====
-- common/System/OS.hpp, `IOSError`.
use saoirse.Prelude.{ℤ, pos, negsuc}

abbrev pub ok : ℤ
ok = pos 0

abbrev pub invalid : ℤ
invalid = negsuc 3

abbrev pub not_found : ℤ
not_found = negsuc 5
