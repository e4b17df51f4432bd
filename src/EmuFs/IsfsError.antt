-- ===== src/EmuFs/IsfsError.antt =====
-- common/System/OS.hpp, `ISFSError`.
use saoirse.Prelude.{ℤ, pos, negsuc}

abbrev pub ok : ℤ
ok = pos 0

abbrev pub invalid : ℤ
invalid = negsuc 100

abbrev pub no_access : ℤ
no_access = negsuc 101

abbrev pub corrupt : ℤ
corrupt = negsuc 102

abbrev pub not_ready : ℤ
not_ready = negsuc 103

abbrev pub exists : ℤ
exists = negsuc 104

abbrev pub not_found : ℤ
not_found = negsuc 105

abbrev pub max_open : ℤ
max_open = negsuc 108

abbrev pub locked : ℤ
locked = negsuc 110

abbrev pub unknown : ℤ
unknown = negsuc 116
