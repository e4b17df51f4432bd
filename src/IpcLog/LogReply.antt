-- ===== src/IpcLog/LogReply.antt =====
-- common/Debug/Log.hpp, `IPCLogReply`: what a request that waited is answered with.
use saoirse.Prelude.{ℤ, pos}

abbrev pub close : ℤ
close = pos 0

abbrev pub print : ℤ
print = pos 1

abbrev pub notice : ℤ
notice = pos 2

abbrev pub dev_insert : ℤ
dev_insert = pos 3

abbrev pub dev_remove : ℤ
dev_remove = pos 4
