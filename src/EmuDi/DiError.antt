-- ===== src/EmuDi/DiError.antt =====
-- common/DVD/DI.hpp, `DI::DIError`, and the results of ios/EmuDI/EmuDI.cpp with the same codes.
use saoirse.Prelude.{ℤ, pos}

abbrev pub ok : ℤ
ok = pos 0x1

abbrev pub drive : ℤ
drive = pos 0x2

abbrev pub security : ℤ
security = pos 0x20

abbrev pub bad_argument : ℤ
bad_argument = pos 0x80

abbrev pub verify : ℤ
verify = pos 0x40
