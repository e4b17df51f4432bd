-- ===== src/EmuFs/Ioctl.antt =====
-- ios/IOS/EmuFS.cpp, `ReqIoctl`: the commands of a file and of the manager, one function for each.
-- Renaming is in a child.
pub mod Rename
use saoirse.Prelude.{
  ℕ, ◌+◌, ◌-◌, Bool, true, false, ◌&&◌, ◌||◌, not, Option, none, some, List, [], ◌∷◌, ltb, leb,
  ◌==◌, if◌then◌else◌, ℤ, pos, negsuc, is_neg, eq_ℤ, length, drop, aligned,
}
use saoirse.EmuFs.IsfsError
use saoirse.EmuFs.Env.{
  Env, Buffer, OutBuffer, Output, Command, ioctl, no_output, stats, attributes, fa_read, fa_write,
  fa_create_new, is_ok,
}
use saoirse.EmuFs.Types.{
  in_array, ProxyFile, Object, State, Reply, Handler, fil, update, max_files, mgr_handle_base,
  efs_max_path_len, isfs_max_path, is_manager_handle, to_isfs_error,
}
use saoirse.EmuFs.Table.{
  slot, get_fil, is_file_descriptor_valid, find_open_file_descriptor,
  find_available_file_descriptor, try_close_file_descriptor,
}
use saoirse.EmuFs.Paths.{is_path_valid, is_path_replaced, get_redirected_path}
use saoirse.EmuFs.Requests.{say}
use Rename.{c_string, in_address, out_address, forward_ioctl, rename}

-- the size of an `ISFSAttrBlock`, and the offset of its path
abbrev attr_block_size : ℕ
attr_block_size = 76

abbrev attr_block_path : ℕ
attr_block_path = 6

abbrev stat_size : ℕ
stat_size = 8

-- `ISFSIoctl`
pub data IsfsIoctl : Type 0 where
  format create_dir set_attr get_attr delete rename_file create_file get_file_stats : IsfsIoctl
  shutdown other : IsfsIoctl

unfoldable pub isfs_ioctl : ℕ → IsfsIoctl
isfs_ioctl cmd =
    if cmd == 0x1
    then format
    else if cmd == 0x3
    then create_dir
    else if cmd == 0x5
    then set_attr
    else if cmd == 0x6
    then get_attr
    else if cmd == 0x7
    then delete
    else if cmd == 0x8
    then rename_file
    else if cmd == 0x9
    then create_file
    else if cmd == 0xB
    then get_file_stats
    else if cmd == 0xD
    then shutdown
    else other

module _ (E : Env) where
  open E use {World, f_open, f_sync, f_mkdir, f_stat, f_unlink, f_tell, f_size, uid, gid}

  -- what a path command does once its buffers have passed: `IsPathValid`, the request forwarded to
  -- the manager's own descriptor unless the path is replaced, and the redirected path
  abbrev with_redirected : ℤ → ℕ → Buffer → OutBuffer → List ℕ → (List ℕ → Handler E) → Handler E
  with_redirected mgr cmd in_ io path go s =
      if not (is_path_valid path)
      then say E IsfsError.invalid s
      else if not (is_path_replaced path)
      then forward_ioctl E mgr cmd in_ io s
      else elim (get_redirected_path path efs_max_path_len) [
        | none ↦ say E IsfsError.invalid s
        | some efs_path ↦ go efs_path s
      ]

  -- a result of FatFs that leaves the tables alone
  abbrev volume_reply : Output → ℤ → World → State E → Option (Reply E × State E)
  volume_reply out r w s = some (record { ret = r; out = out }, record s { world = w })

  -- [ISFS_CreateDir]; the directory is made under the path that was given
  unfoldable pub create_directory : ℤ → ℕ → Buffer → OutBuffer → Handler E
  create_directory mgr cmd in_ io s =
      let path = c_string (drop attr_block_path in_.bytes) in
      if not (aligned (in_address in_) 4)
      then say E IsfsError.invalid s
      else if ltb (length in_.bytes) attr_block_size
      then say E IsfsError.invalid s
      else with_redirected mgr cmd in_ io path
          (λ efs_path s.
            let (fret, w) = f_mkdir path s.world in volume_reply no_output (to_isfs_error fret) w s)
          s

  -- [ISFS_SetAttr]
  unfoldable pub set_attributes : ℤ → ℕ → Buffer → OutBuffer → Handler E
  set_attributes mgr cmd in_ io s =
      let path = c_string (drop attr_block_path in_.bytes) in
      if not (aligned (in_address in_) 4)
      then say E IsfsError.invalid s
      else if ltb (length in_.bytes) attr_block_size
      then say E IsfsError.invalid s
      else with_redirected mgr cmd in_ io path
          (λ efs_path s.
            let (fret, w) = f_stat efs_path s.world in
            volume_reply no_output (to_isfs_error fret) w s)
          s

  -- [ISFS_GetAttr]; the permissions and attributes of the reply are constants
  unfoldable pub get_attributes : ℤ → ℕ → Buffer → OutBuffer → Handler E
  get_attributes mgr cmd in_ io s =
      let path = c_string in_.bytes in
      if not (aligned (in_address in_) 4) || not (aligned (out_address io) 4)
      then say E IsfsError.invalid s
      else if ltb (length in_.bytes) isfs_max_path || ltb io.len attr_block_size
      then say E IsfsError.invalid s
      else with_redirected mgr cmd in_ io path
          (λ efs_path s.
            let (fret, w) = f_stat efs_path s.world in
            if is_ok fret
            then volume_reply (attributes uid gid path) IsfsError.ok w s
            else volume_reply no_output (to_isfs_error fret) w s)
          s

  -- The part of [ISFS_Delete] that follows the tests: an open file is closed first.
  unfoldable pub delete_replaced : List ℕ → Handler E
  delete_replaced path s =
      let unlink : Handler E = λ s. elim (get_redirected_path path efs_max_path_len) [
        | none ↦ say E IsfsError.invalid s
        | some efs_path ↦
            let (fret, w) = f_unlink efs_path s.world in
            volume_reply no_output (to_isfs_error fret) w s
      ] in
      let i = find_open_file_descriptor E s.files path in
      if i == max_files then unlink s else elim (try_close_file_descriptor E i s) [
        | none ↦ none
        | some (r, s') ↦ if eq_ℤ r IsfsError.ok then unlink s' else say E r s'
      ]

  -- [ISFS_Delete]
  unfoldable pub delete_path : ℤ → ℕ → Buffer → OutBuffer → Handler E
  delete_path mgr cmd in_ io s =
      let path = c_string in_.bytes in
      if not (aligned (in_address in_) 4)
      then say E IsfsError.invalid s
      else if ltb (length in_.bytes) isfs_max_path
      then say E IsfsError.invalid s
      else if not (is_path_valid path)
      then say E IsfsError.invalid s
      else if not (is_path_replaced path)
      then forward_ioctl E mgr cmd in_ io s
      else delete_replaced path s

  -- The part of [ISFS_CreateFile] that follows the tests: the new file is kept open in a free slot,
  -- whose path stays what it was.
  unfoldable pub create_at : List ℕ → Handler E
  create_at efs_path s =
      let (fret, o, w) = f_open efs_path (fa_create_new + fa_read + fa_write) s.world in
      if not (is_ok fret)
      then volume_reply no_output (to_isfs_error fret) w s
      else let (_, o', w') = f_sync o w in
        let fd = find_available_file_descriptor E s.files in
        let f = s.files (slot fd) in
        if is_neg fd
        then volume_reply no_output IsfsError.ok w' s
        else say E IsfsError.ok (record s {
          files = update s.files (slot fd) (record f { fil_opened = true; object = fil o' });
          world = w';
        })

  -- [ISFS_CreateFile]
  unfoldable pub create_file_path : ℤ → ℕ → Buffer → OutBuffer → Handler E
  create_file_path mgr cmd in_ io s =
      let path = c_string (drop attr_block_path in_.bytes) in
      if not (aligned (in_address in_) 4)
      then say E IsfsError.invalid s
      else if ltb (length in_.bytes) attr_block_size
      then say E IsfsError.invalid s
      else with_redirected mgr cmd in_ io path (λ efs_path s. create_at efs_path s) s

  -- The command of a file, GetFileStats.
  unfoldable pub file_stats : ℤ → OutBuffer → Handler E
  file_stats fd io s =
      if ltb io.len stat_size
      then say E IsfsError.invalid s
      else if not (aligned (out_address io) 4)
      then say E IsfsError.invalid s
      else elim (get_fil E (s.files (slot fd)).object) [
        | none ↦ none
        | some o ↦ some (record { ret = IsfsError.ok; out = stats (f_size o) (f_tell o) }, s)
      ]

  abbrev file_ioctl : ℤ → OutBuffer → IsfsIoctl → Handler E
  file_ioctl fd io get_file_stats s = file_stats fd io s
  file_ioctl fd io _ s = say E IsfsError.invalid s

  -- the `switch` on a manager's command
  unfoldable pub manager_ioctl : IsfsIoctl → ℤ → ℕ → Buffer → OutBuffer → Handler E
  manager_ioctl format mgr cmd in_ io s = say E IsfsError.no_access s
  manager_ioctl create_dir mgr cmd in_ io s = create_directory mgr cmd in_ io s
  manager_ioctl set_attr mgr cmd in_ io s = set_attributes mgr cmd in_ io s
  manager_ioctl get_attr mgr cmd in_ io s = get_attributes mgr cmd in_ io s
  manager_ioctl delete mgr cmd in_ io s = delete_path mgr cmd in_ io s
  manager_ioctl rename_file mgr cmd in_ io s = rename E mgr cmd in_ io s
  manager_ioctl create_file mgr cmd in_ io s = create_file_path mgr cmd in_ io s
  manager_ioctl shutdown mgr cmd in_ io s = say E IsfsError.ok s
  manager_ioctl get_file_stats mgr cmd in_ io s = say E IsfsError.invalid s
  manager_ioctl other mgr cmd in_ io s = say E IsfsError.invalid s

  -- `ReqIoctl`; `GetManagerResource` asserts that the manager's descriptor is open
  unfoldable pub req_ioctl : ℤ → ℕ → Buffer → OutBuffer → Handler E
  req_ioctl fd cmd in_ io s =
      let mgr = s.mgr (slot fd - mgr_handle_base) in
      if is_file_descriptor_valid E s.files fd
      then (if in_array fd then file_ioctl fd io (isfs_ioctl cmd) s else none)
      else if not (is_manager_handle fd)
      then say E IsfsError.invalid s
      else if is_neg mgr
      then none
      else manager_ioctl (isfs_ioctl cmd) mgr cmd in_ io s
