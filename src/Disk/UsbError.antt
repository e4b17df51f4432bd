-- ===== src/Disk/UsbError.antt =====
-- ios/Disk/USB.hpp, `USB::USBError`.
use saoirse.Prelude.{ℤ, pos, negsuc}

abbrev pub ok : ℤ
ok = pos 0

abbrev pub invalid : ℤ
invalid = negsuc 3

abbrev pub short_transfer : ℤ
short_transfer = negsuc 1999
