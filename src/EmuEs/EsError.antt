-- ===== src/EmuEs/EsError.antt =====
-- common/System/ES.hpp, `ESError`: the codes that the resource manager itself answers with.
use saoirse.Prelude.{ℤ, pos, negsuc}

abbrev pub ok : ℤ
ok = pos 0

abbrev pub invalid : ℤ
invalid = negsuc 1016

abbrev pub invalid_ticket : ℤ
invalid_ticket = negsuc 1028
