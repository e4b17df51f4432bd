-- ===== src/EmuFs/Types.antt =====
-- ios/IOS/EmuFS.cpp: the constants, the kinds of descriptor, the error codes and the descriptor
-- tables.
use saoirse.Prelude.{
  ℕ, ◌+◌, ◌%◌, ◌/◌, Bool, false, ◌&&◌, Option, List, ltb, leb, ◌==◌, if◌then◌else◌, ℤ, pos, negsuc,
}
use saoirse.EmuFs.IsfsError
use saoirse.EmuFs.Env.{
  Env, Output, fa_read, fa_write, FResult, fr_ok, fr_disk_err, fr_int_err, fr_not_ready, fr_no_file,
  fr_no_path, fr_invalid_name, fr_denied, fr_exist, fr_invalid_object, fr_write_protected,
  fr_invalid_drive, fr_not_enabled, fr_no_filesystem, fr_mkfs_aborted, fr_timeout, fr_locked,
  fr_not_enough_core, fr_too_many_open_files, fr_invalid_parameter,
}

-- `NAND_MAX_FILE_DESCRIPTOR_AMOUNT`, the size of `sFileArray` and of `sDirectFileArray`
abbrev pub max_files : ℕ
max_files = 15

abbrev pub real_handle_base : ℕ
real_handle_base = 100

abbrev pub mgr_handle_base : ℕ
mgr_handle_base = 200

abbrev pub mgr_handle_max : ℕ
mgr_handle_max = 32

abbrev pub direct_handle_base : ℕ
direct_handle_base = 300

-- `EFS_MAX_PATH_LEN` and `ISFSMaxPath`
abbrev pub efs_max_path_len : ℕ
efs_max_path_len = 2048

abbrev pub isfs_max_path : ℕ
isfs_max_path = 64

-- `DescType`
pub data DescType : Type 0 where
  replaced real manager direct unknown : DescType

-- `lo <= fd && fd < lo + n`
abbrev pub in_block : ℕ → ℕ → ℤ → Bool
in_block lo n (pos fd) = leb lo fd && ltb fd (lo + n)
in_block lo n (negsuc _) = false

-- Whether a descriptor is an index of `sFileArray`; an access at any other is a fault.
abbrev pub in_array : ℤ → Bool
in_array fd = in_block 0 max_files fd

-- `GetDescriptorType`
unfoldable pub get_descriptor_type : ℤ → DescType
get_descriptor_type fd =
    if in_block 0 max_files fd
    then replaced
    else if in_block real_handle_base max_files fd
    then real
    else if in_block mgr_handle_base mgr_handle_max fd
    then manager
    else if in_block direct_handle_base max_files fd
    then direct
    else unknown

-- `IsManagerHandle`
unfoldable pub is_manager_handle : ℤ → Bool
is_manager_handle fd = in_block mgr_handle_base mgr_handle_max fd

-- `FResultToISFSError`
unfoldable pub to_isfs_error : FResult → ℤ
to_isfs_error fr_ok = IsfsError.ok
to_isfs_error fr_invalid_name = IsfsError.invalid
to_isfs_error fr_invalid_drive = IsfsError.invalid
to_isfs_error fr_invalid_parameter = IsfsError.invalid
to_isfs_error fr_invalid_object = IsfsError.invalid
to_isfs_error fr_disk_err = IsfsError.corrupt
to_isfs_error fr_int_err = IsfsError.corrupt
to_isfs_error fr_no_filesystem = IsfsError.corrupt
to_isfs_error fr_not_ready = IsfsError.not_ready
to_isfs_error fr_not_enabled = IsfsError.not_ready
to_isfs_error fr_no_file = IsfsError.not_found
to_isfs_error fr_no_path = IsfsError.not_found
to_isfs_error fr_denied = IsfsError.no_access
to_isfs_error fr_write_protected = IsfsError.no_access
to_isfs_error fr_exist = IsfsError.exists
to_isfs_error fr_locked = IsfsError.locked
to_isfs_error fr_too_many_open_files = IsfsError.max_open
to_isfs_error fr_mkfs_aborted = IsfsError.unknown
to_isfs_error fr_not_enough_core = IsfsError.unknown
to_isfs_error fr_timeout = IsfsError.unknown

-- `IOS::Mode`: bit 0 reads, bit 1 writes; `mode & Read` and `mode & Write`
abbrev pub can_read : ℕ → Bool
can_read mode = mode % 2 == 1

abbrev pub can_write : ℕ → Bool
can_write mode = mode / 2 % 2 == 1

-- `ISFSModeToFileMode`
unfoldable pub isfs_mode_to_file_mode : ℕ → ℕ
isfs_mode_to_file_mode mode =
    (if can_read mode then fa_read else 0) + (if can_write mode then fa_write else 0)

module _ (E : Env) where
  open E use {World, Fil, Dir}

  -- The union of a `FIL` and a `DIR`: what was last stored in it.
  pub data Object : Type 0 where
    blank : Object
    fil : Fil → Object
    dir : Dir → Object

  -- `ProxyFile`
  pub record ProxyFile : Type 0 where
    pub ipc_file : Bool
    pub in_use : Bool
    pub fil_opened : Bool
    pub path : List ℕ
    pub mode : ℕ
    pub is_dir : Bool
    pub object : Object

  -- `DirectFile`
  pub record DirectFile : Type 0 where
    pub in_use : Bool
    pub fd : ℤ

  -- `sFileArray`, `sDirectFileArray`, the descriptors of `realFS`, and what lies outside
  pub record State : Type 0 where
    pub files : ℕ → ProxyFile
    pub direct : ℕ → DirectFile
    pub mgr : ℕ → ℤ
    pub world : World

  pub record Reply : Type 0 where
    pub ret : ℤ
    pub out : Output

  -- A handler: `none` is a failed assertion, or an access outside an array or to the wrong member
  -- of the union.
  abbrev pub Handler : Type 0
  Handler = State → Option (Reply × State)

-- An array with one entry written.
abbrev pub update {ℓ} : {A : Type ℓ} → (ℕ → A) → ℕ → A → ℕ → A
update f i v j = if i == j then v else f j
