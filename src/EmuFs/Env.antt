-- ===== src/EmuFs/Env.antt =====
-- What ios/IOS/EmuFS.cpp calls and does not implement: FatFs (ios/FAT, a copy of that library) and
-- the IOS system calls. They act on one `World`, and are parameters of the whole model.
use saoirse.Prelude.{ℕ, Bool, true, false, Option, List, ℤ}

-- `FRESULT`
pub data FResult : Type 0 where
  fr_ok fr_disk_err fr_int_err fr_not_ready fr_no_file fr_no_path fr_invalid_name fr_denied :
      FResult
  fr_exist fr_invalid_object fr_write_protected fr_invalid_drive fr_not_enabled : FResult
  fr_no_filesystem fr_mkfs_aborted fr_timeout fr_locked fr_not_enough_core : FResult
  fr_too_many_open_files fr_invalid_parameter : FResult

-- `fret == FR_OK`
unfoldable pub is_ok : FResult → Bool
is_ok fr_ok = true
is_ok _ = false

-- The modes of `f_open`.
abbrev pub fa_read : ℕ
fa_read = 1

abbrev pub fa_write : ℕ
fa_write = 2

abbrev pub fa_create_new : ℕ
fa_create_new = 4

abbrev pub fa_create_always : ℕ
fa_create_always = 8

-- `FILINFO`
pub record FilInfo : Type 0 where
  pub fname : List ℕ
  pub altname : List ℕ
  pub fattrib : ℕ
  pub fsize : ℕ

-- A buffer of a request: its address and its bytes. An I/O buffer has a length only.
pub record Buffer : Type 0 where
  pub address : ℕ
  pub bytes : List ℕ

pub record OutBuffer : Type 0 where
  pub address : ℕ
  pub len : ℕ

-- A vector of an ioctlv: its bytes are read where it is an input.
pub record Vector : Type 0 where
  pub address : ℕ
  pub len : ℕ
  pub bytes : List ℕ

-- The arguments of `IOS::Request`, for each `IOS::Command`.
pub data Command : Type 0 where
  open_file : List ℕ → ℕ → ℕ → ℕ → Command
  close : Command
  read : ℕ → Command
  write : List ℕ → Command
  seek : ℤ → ℤ → Command
  ioctl : ℕ → Buffer → OutBuffer → Command
  ioctlv : ℕ → ℕ → ℕ → List Vector → Command
  reply : Command

-- What a request writes to the caller's memory.
pub data Output : Type 0 where
  no_output : Output
  bytes : List ℕ → Output
  stats : ℕ → ℕ → Output
  attributes : ℕ → ℕ → List ℕ → Output
  blank_stat : Output
  dir_stat : FilInfo → Output
  listing : List (List ℕ) → ℕ → Output
  forwarded : List ℕ → Output

pub record Env : Type 1 where
  pub World : Type 0
  pub Fil : Type 0
  pub Dir : Type 0
  -- FatFs: each call gives its result, the object as it leaves it, and the volume.
  pub f_open : List ℕ → ℕ → World → FResult × Fil × World
  pub f_close : Fil → World → FResult × Fil × World
  pub f_sync : Fil → World → FResult × Fil × World
  pub f_truncate : Fil → World → FResult × Fil × World
  pub f_lseek : ℕ → Fil → World → FResult × Fil × World
  -- the bytes read, and the count of bytes written
  pub f_read : ℕ → Fil → World → FResult × List ℕ × Fil × World
  pub f_write : List ℕ → Fil → World → FResult × ℕ × Fil × World
  pub f_tell : Fil → ℕ
  pub f_size : Fil → ℕ
  pub f_opendir : List ℕ → World → FResult × Dir × World
  pub f_readdir : Dir → World → FResult × FilInfo × Dir × World
  pub f_closedir : Dir → World → FResult × World
  pub f_mkdir : List ℕ → World → FResult × World
  pub f_stat : List ℕ → World → FResult × World
  pub f_unlink : List ℕ → World → FResult × World
  pub f_rename : List ℕ → List ℕ → World → FResult × World
  -- IOS: a request sent to a descriptor of the kernel, and what it answers
  pub ios_request : ℤ → Command → World → ℤ × Output × World
  pub ios_open : List ℕ → ℕ → World → ℤ × World
  -- opening `/dev/fs` under a user and a group
  pub ios_open_as : List ℕ → ℕ → ℕ → World → ℤ × World
  pub ios_close : ℤ → World → ℤ × World
  -- the size of an open file, where its statistics can be had; the result and the bytes of a read
  pub ios_file_size : ℤ → World → Option ℕ × World
  pub ios_file_read : ℤ → ℕ → World → ℤ × List ℕ × World
  -- a bound on the entries of a directory
  pub max_entries : ℕ
  pub uid : ℕ
  pub gid : ℕ
