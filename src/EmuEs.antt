-- ===== src/EmuEs.antt =====
-- ios/IOS/EmuES.cpp, the resource manager that stands before the console's ES (titles and tickets),
-- and common/System/ES.cpp, its calls of the real one.
pub mod EsError
pub mod Ioctl
pub mod Calls
pub mod Commands
pub mod Requests
pub mod Nulled
pub mod Layout
pub mod Frame
pub mod Title
mod Tests
