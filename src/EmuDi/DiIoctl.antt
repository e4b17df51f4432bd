-- ===== src/EmuDi/DiIoctl.antt =====
-- common/DVD/DI.hpp, `DI::DIIoctl`: the commands that the emulated drive knows.
use saoirse.Prelude.{ℕ}

abbrev pub inquiry : ℕ
inquiry = 0x12

abbrev pub read_disk_id : ℕ
read_disk_id = 0x70

abbrev pub read : ℕ
read = 0x71

abbrev pub get_cover_register : ℕ
get_cover_register = 0x7A

abbrev pub clear_cover_interrupt : ℕ
clear_cover_interrupt = 0x86

abbrev pub reset : ℕ
reset = 0x8A

abbrev pub open_partition : ℕ
open_partition = 0x8B

abbrev pub unencrypted_read : ℕ
unencrypted_read = 0x8D

abbrev pub get_status_register : ℕ
get_status_register = 0x95

abbrev pub get_control_register : ℕ
get_control_register = 0x96

abbrev pub read_disk_bca : ℕ
read_disk_bca = 0xDA
