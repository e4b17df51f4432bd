-- ===== src/EmuFs/Requests.antt =====
-- ios/IOS/EmuFS.cpp, the requests on files: open, close, read, write and seek.
use saoirse.Prelude.{
  ℕ, ◌+◌, ◌-◌, Bool, true, false, ◌||◌, not, Option, none, some, List, [], ltb, ◌==◌, if◌then◌else◌,
  ℤ, pos, negsuc, is_neg, eq_ℤ, pos_part, neg_part, length, to_s32, u64, ◌%◌, ◌^◌,
}
use saoirse.EmuFs.IosError
use saoirse.EmuFs.IsfsError
use saoirse.EmuFs.Env.{Env, no_output, bytes, fa_read, fa_write, is_ok}
use saoirse.EmuFs.Types.{
  in_array, ProxyFile, State, Reply, Handler, fil, dir, update, max_files, mgr_handle_base,
  direct_handle_base, efs_max_path_len, DescType, direct, get_descriptor_type, is_manager_handle,
  to_isfs_error, can_read, can_write, isfs_mode_to_file_mode,
}
use saoirse.EmuFs.Table.{
  slot, get_fil, is_file_descriptor_valid, register_file_descriptor, free_file_descriptor,
  find_available_file_descriptor,
}
use saoirse.EmuFs.Paths.{get_redirected_path}

module _ (E : Env) where
  open E use {
    World, Fil, Dir, f_open, f_close, f_sync, f_lseek, f_read, f_write, f_tell, f_size, f_opendir,
    ios_close,
  }

  abbrev pub say : ℤ → State E → Option (Reply E × State E)
  say r s = some (record { ret = r; out = no_output }, s)

  -- a slot's entry replaced, and the volume as a call left it
  abbrev pub put : State E → ℕ → ProxyFile E → World → State E
  put s i f w = record s { files = update s.files i f; world = w }

  -- `ReopenFile`
  unfoldable pub reopen_file : ℕ → Handler E
  reopen_file i s = elim (get_fil E (s.files i).object) [
    | none ↦ none
    | some o ↦
        let (fret, o', w) = f_lseek 0 o s.world in
        let s' = put s i (record (s.files i) { object = fil o' }) w in
        if is_ok fret
        then say (pos i) s'
        else say (to_isfs_error fret) (free_file_descriptor E (pos i) s')
  ]

  -- The part of `ReqProxyOpen` that follows the registration of slot `i`.
  unfoldable pub open_registered : List ℕ → ℕ → ℕ → Handler E
  open_registered efs_path mode i s =
      let f : ProxyFile E = record (s.files i) { mode = mode } in
      let moded : State E = record s { files = update s.files i f } in
      if not (is_file_descriptor_valid E s.files (pos i))
      then none
      else if f.fil_opened
      then reopen_file i moded
      else let (fret, o, w) = f_open efs_path (fa_read + fa_write) s.world in
        let opened : State E = put moded i (record f { object = fil o }) w in
        if is_ok fret
        then say (pos i) (put moded i (record f { object = fil o; fil_opened = true }) w)
        else say (to_isfs_error fret) (free_file_descriptor E (pos i) opened)

  -- `ReqProxyOpen`
  unfoldable pub req_proxy_open : List ℕ → ℕ → Handler E
  req_proxy_open path mode s =
      if ltb 3 mode
      then say IsfsError.invalid s
      else elim (get_redirected_path path efs_max_path_len) [
        | none ↦ say IsfsError.invalid s
        | some efs_path ↦ elim (register_file_descriptor E path s) [
          | none ↦ none
          | some (fd, s') ↦
              if is_neg fd then say fd s' else open_registered efs_path mode (slot fd) s'
        ]
      ]

  -- `ReqDirectOpen`; a slot's old file is dropped, and its path is blanked
  unfoldable pub req_direct_open : List ℕ → ℕ → Handler E
  req_direct_open path mode s =
      let fd = find_available_file_descriptor E s.files in
      if is_neg fd
      then say fd s
      else let f = s.files (slot fd) in
        let (fret, o, w) = f_open path (isfs_mode_to_file_mode mode) s.world in
        let dropped : ProxyFile E = record f {
          in_use = false;
          fil_opened = false;
          path = [];
          object = fil o;
        } in
        if is_ok fret
        then say fd (
            put s (slot fd)
              (record dropped { mode = mode; in_use = true; is_dir = false; fil_opened = true }) w)
        else say (to_isfs_error fret) (put s (slot fd) dropped w)

  -- `ReqDirectOpenDir`
  unfoldable pub req_direct_open_dir : List ℕ → Handler E
  req_direct_open_dir path s =
      let fd = find_available_file_descriptor E s.files in
      if is_neg fd
      then say fd s
      else let f = s.files (slot fd) in
        let (fret, d, w) = f_opendir path s.world in
        let dropped : ProxyFile E = record f {
          in_use = false;
          fil_opened = false;
          object = dir d;
        } in
        if is_ok fret
        then say fd (put s (slot fd) (record dropped { in_use = true; is_dir = true }) w)
        else say (to_isfs_error fret) (put s (slot fd) dropped w)

  -- The two ends of `ReqClose`: a direct file is closed, any other is written back and kept open.
  unfoldable pub close_direct_file : ℤ → Handler E
  close_direct_file fd s =
      if not (is_file_descriptor_valid E s.files fd)
      then say IsfsError.invalid s
      else if not (in_array fd)
      then none
      else elim (get_fil E (s.files (slot fd)).object) [
        | none ↦ none
        | some o ↦
            let (fret, o', w) = f_close o s.world in
            let f : ProxyFile E = record (s.files (slot fd)) { object = fil o' } in
            if is_ok fret
            then say IsfsError.ok
                (free_file_descriptor E fd (put s (slot fd) (record f { fil_opened = false }) w))
            else say IsfsError.unknown (put s (slot fd) f w)
      ]

  unfoldable pub close_replaced_file : ℤ → Handler E
  close_replaced_file fd s =
      if not (is_file_descriptor_valid E s.files fd)
      then say IsfsError.invalid s
      else if not (in_array fd)
      then none
      else elim (get_fil E (s.files (slot fd)).object) [
        | none ↦ none
        | some o ↦
            let (fret, o', w) = f_sync o s.world in
            let s' = put s (slot fd) (record (s.files (slot fd)) { object = fil o' }) w in
            if is_ok fret
            then say IsfsError.ok (free_file_descriptor E fd s')
            else say IsfsError.unknown s'
      ]

  abbrev pub is_direct : DescType → Bool
  is_direct direct = true
  is_direct _ = false

  -- The manager's part of `ReqClose`: `GetManagerResource` asserts that the resource is open, and
  -- the caller that it closes; `IOS::Resource::close` forgets the descriptor.
  unfoldable pub close_manager : ℕ → Handler E
  close_manager i s =
      if is_neg (s.mgr i)
      then none
      else let (ret, w) = ios_close (s.mgr i) s.world in
        let closed : State E = record s { mgr = update s.mgr i (negsuc 0); world = w } in
        if eq_ℤ ret IosError.ok then say IosError.ok closed else none

  -- The direct part of `ReqClose`; `sFileArray[realFd]` faults where `realFd` is no index.
  unfoldable pub close_direct : ℕ → Handler E
  close_direct i s =
      let d = s.direct i in
      let s' : State E = record s {
        direct = update s.direct i (record { in_use = false; fd = IsfsError.not_found });
      } in
      if not d.in_use
      then say IosError.ok s
      else if is_neg d.fd || not (ltb (slot d.fd) max_files)
      then none
      else if (s.files (slot d.fd)).is_dir
      then say IosError.ok s'
      else close_direct_file d.fd s'

  -- `ReqClose`
  unfoldable pub req_close : ℤ → Handler E
  req_close fd s =
      if is_manager_handle fd
      then close_manager (slot fd - mgr_handle_base) s
      else if is_direct (get_descriptor_type fd)
      then close_direct (slot fd - direct_handle_base) s
      else close_replaced_file fd s

  -- `ReqRead`; the count of bytes read is the result
  unfoldable pub req_read : ℤ → ℕ → Handler E
  req_read fd len s =
      if not (is_file_descriptor_valid E s.files fd)
      then say IsfsError.invalid s
      else if not (in_array fd)
      then none
      else if len == 0
      then say IsfsError.ok s
      else if not (can_read (s.files (slot fd)).mode)
      then say IsfsError.no_access s
      else elim (get_fil E (s.files (slot fd)).object) [
        | none ↦ none
        | some o ↦
            let (fret, got, o', w) = f_read len o s.world in
            let s' = put s (slot fd) (record (s.files (slot fd)) { object = fil o' }) w in
            if is_ok fret
            then some (record { ret = to_s32 (length got); out = bytes got }, s')
            else say (to_isfs_error fret) s'
      ]

  -- `ReqWrite`; the count of bytes written is the result
  unfoldable pub req_write : ℤ → List ℕ → Handler E
  req_write fd input s =
      if not (is_file_descriptor_valid E s.files fd)
      then say IsfsError.invalid s
      else if not (in_array fd)
      then none
      else if length input == 0
      then say IsfsError.ok s
      else if not (can_write (s.files (slot fd)).mode)
      then say IsfsError.no_access s
      else elim (get_fil E (s.files (slot fd)).object) [
        | none ↦ none
        | some o ↦
            let (fret, wrote, o', w) = f_write input o s.world in
            let s' = put s (slot fd) (record (s.files (slot fd)) { object = fil o' }) w in
            if is_ok fret then say (to_s32 wrote) s' else say (to_isfs_error fret) s'
      ]

  -- a 32-bit signed number added to a file offset, which is an unsigned 64-bit number
  abbrev pub add_offset : ℕ → ℤ → ℕ
  add_offset base where_ = u64 (base + pos_part where_ + (2 ^ 64 - neg_part where_))

  -- the offset that `whence` counts from; `none` where it is none of the three
  abbrev pub seek_base : ℤ → ℕ → ℕ → Option ℕ
  seek_base whence tell size =
      if eq_ℤ whence (pos 0)
      then some 0
      else if eq_ℤ whence (pos 1)
      then some tell
      else if eq_ℤ whence (pos 2)
      then some size
      else none

  -- The part of `ReqSeek` that follows the choice of the offset.
  unfoldable pub seek_to : ℕ → Fil → ℕ → Handler E
  seek_to i o offset s =
      if ltb (f_size o) offset
      then say IsfsError.invalid s
      else if offset == f_tell o
      then say (to_s32 (offset % 2 ^ 32)) s
      else let (fret, o', w) = f_lseek offset o s.world in
        let s' = put s i (record (s.files i) { object = fil o' }) w in
        if is_ok fret then say (to_s32 (offset % 2 ^ 32)) s' else say (to_isfs_error fret) s'

  -- `ReqSeek`
  unfoldable pub req_seek : ℤ → ℤ → ℤ → Handler E
  req_seek fd where_ whence s =
      if not (is_file_descriptor_valid E s.files fd)
      then say IsfsError.invalid s
      else if not (in_array fd)
      then none
      else elim (get_fil E (s.files (slot fd)).object) [
        | none ↦ none
        | some o ↦ elim (seek_base whence (f_tell o) (f_size o)) [
          | none ↦ say IsfsError.invalid s
          | some base ↦ seek_to (slot fd) o (add_offset base where_) s
        ]
      ]
