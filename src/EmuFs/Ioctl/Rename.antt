-- ===== src/EmuFs/Ioctl/Rename.antt =====
-- ios/IOS/EmuFS.cpp, the rename command of the manager, with the copy of a file from the real file
-- system to the volume; and how a command's buffers are read and forwarded.
use saoirse.Prelude.{
  ℕ, zero, suc, ◌+◌, ◌-◌, ◌/◌, ◌&&◌, ◌||◌, not, Option, none, some, List, [], ◌∷◌, ltb, leb, ◌==◌,
  if◌then◌else◌, ℤ, pos, is_neg, eq_ℤ, pos_part, length, drop, aligned, codes, has_prefix, to_s32,
  take, min,
}
use saoirse.EmuFs.IsfsError
use saoirse.EmuFs.Env.{Env, Buffer, OutBuffer, ioctl, fa_write, fa_create_always, is_ok}
use saoirse.EmuFs.Types.{
  State, Handler, fil, max_files, efs_max_path_len, isfs_max_path, to_isfs_error,
}
use saoirse.EmuFs.Table.{get_fil, find_open_file_descriptor}
use saoirse.EmuFs.Paths.{is_path_valid, is_path_replaced, get_redirected_path}
use saoirse.EmuFs.Requests.{say, put}

-- the string that starts at an address: the bytes before the first 0
unfoldable pub c_string : List ℕ → List ℕ
c_string [] = []
c_string (c ∷ s) = let rest = c_string s in if c == 0 then [] else c ∷ rest

-- a buffer with no bytes is taken as the null pointer
abbrev pub in_address : Buffer → ℕ
in_address b = if length b.bytes == 0 then 0 else b.address

abbrev pub out_address : OutBuffer → ℕ
out_address b = if b.len == 0 then 0 else b.address

-- the size of `efsCopyBuffer`
abbrev pub copy_buffer_size : ℕ
copy_buffer_size = 0x2000

-- the size of an `ISFSRenameBlock`, and the numbers of two commands
abbrev rename_block_size : ℕ
rename_block_size = 128

abbrev delete_command : ℕ
delete_command = 0x7

module _ (E : Env) where
  open E use {
    World, Fil, f_open, f_close, f_sync, f_truncate, f_lseek, f_write, f_rename, ios_request,
    ios_open, ios_close, ios_file_size, ios_file_read,
  }

  -- `mgrRes->ioctl(cmd, in, in_len, io, io_len)`
  unfoldable pub forward_ioctl : ℤ → ℕ → Buffer → OutBuffer → Handler E
  forward_ioctl mgr cmd in_ io s =
      let (r, out, w) = ios_request mgr (ioctl cmd in_ io) s.world in
      some (record { ret = r; out = out }, record s { world = w })

  abbrev Copied : Type 0
  Copied = ℤ × Fil × World

  -- The loop of `CopyFromNandToEFS`, with the rounds and the bytes that are left.
  unfoldable pub copy_loop : ℕ → ℕ → ℤ → Fil → World → Copied
  copy_loop zero left fd o w = (IsfsError.ok, o, w)
  copy_loop (suc rounds) left fd o w =
      let len = min left copy_buffer_size in
      let (r, got, w1) = ios_file_read fd len w in
      let (_, closed, w2) = f_close o w1 in
      let (fret, bw, o', w3) = f_write got o w1 in
      let rest = copy_loop rounds (left - len) fd o' w3 in
      if not (eq_ℤ r (pos len))
      then ((if is_neg r then r else IsfsError.unknown), closed, w2)
      else if not (is_ok fret)
      then (to_isfs_error fret, o', w3)
      else if not (bw == len)
      then (IsfsError.unknown, o', w3)
      else rest

  -- `CopyFromNandToEFS`; the file on NAND is closed when it goes out of scope
  unfoldable pub copy_from_nand : List ℕ → Fil → World → Option Copied
  copy_from_nand nand_path o w =
      let (fd, w1) = ios_open nand_path 1 w in
      let (size, w2) = ios_file_size fd w1 in
      if not (has_prefix nand_path (codes "/tmp"))
      then some (IsfsError.no_access, o, w)
      else if is_neg fd
      then some (fd, o, w1)
      else elim size [
        | none ↦ none
        | some n ↦
            let left = pos_part (to_s32 n) in
            let (r, o', w3) =
              copy_loop ((left + copy_buffer_size - 1) / copy_buffer_size) left fd o w2 in
            let (_, w4) = ios_close fd w3 in some (r, o', w4)
      ]

  -- How a rename from NAND ends: the old file is deleted if the copy was made.
  unfoldable pub finish_rename : ℤ → Buffer → ℤ → Handler E
  finish_rename mgr block r s =
      if eq_ℤ r IsfsError.ok
      then forward_ioctl mgr delete_command block (record { address = 0; len = 0 }) s
      else say E r s

  -- From NAND to a file that is not open.
  unfoldable pub rename_to_closed : ℤ → Buffer → List ℕ → List ℕ → Handler E
  rename_to_closed mgr block old new s = elim (get_redirected_path new efs_max_path_len) [
    | none ↦ say E IsfsError.invalid s
    | some efs_new ↦
        let (fret, o, w) = f_open efs_new (fa_write + fa_create_always) s.world in
        if not (is_ok fret)
        then say E (to_isfs_error fret) (record s { world = w })
        else elim (copy_from_nand old o w) [
          | none ↦ none
          | some (r, o', w') ↦
              let (closed, _, w2) = f_close o' w' in
              if is_ok closed then finish_rename mgr block r (record s { world = w2 }) else none
        ]
  ]

  -- From NAND to the file of slot `i`, which is emptied first.
  unfoldable pub rename_to_open : ℤ → Buffer → List ℕ → ℕ → Handler E
  rename_to_open mgr block old i s =
      let f = s.files i in
      let keep : Fil → World → State E = λ o w. put E s i (record f { object = fil o }) w in
      if not f.fil_opened
      then none
      else if f.in_use
      then say E IsfsError.locked s
      else elim (get_fil E f.object) [
        | none ↦ none
        | some o ↦
            let (sought, o1, w1) = f_lseek 0 o s.world in
            let (cut, o2, w2) = f_truncate o1 w1 in
            if not (is_ok sought)
            then say E (to_isfs_error sought) (keep o1 w1)
            else if not (is_ok cut)
            then say E (to_isfs_error cut) (keep o2 w2)
            else elim (copy_from_nand old o2 w2) [
              | none ↦ none
              | some (r, o3, w3) ↦
                  let (synced, o4, w4) = f_sync o3 w3 in
                  if is_ok synced then finish_rename mgr block r (keep o4 w4) else none
            ]
      ]

  -- Between two files of the volume.
  unfoldable pub rename_replaced : List ℕ → List ℕ → Handler E
  rename_replaced old new s = elim (get_redirected_path old efs_max_path_len) [
    | none ↦ say E IsfsError.invalid s
    | some efs_old ↦ elim (get_redirected_path new efs_max_path_len) [
      | none ↦ say E IsfsError.invalid s
      | some efs_new ↦
          let (fret, w) = f_rename efs_old efs_new s.world in
          say E (to_isfs_error fret) (record s { world = w })
    ]
  ]

  -- The part of [ISFS_Rename] that follows the tests of its buffer and paths.
  unfoldable pub rename_paths : ℤ → ℕ → Buffer → OutBuffer → List ℕ → List ℕ → Handler E
  rename_paths mgr cmd in_ io old new s =
      let block : Buffer = record { address = in_.address; bytes = take isfs_max_path in_.bytes } in
      let open_fd = find_open_file_descriptor E s.files new in
      if not (is_path_replaced old) && not (is_path_replaced new)
      then forward_ioctl mgr cmd in_ io s
      else if not (is_path_replaced old)
      then (if leb max_files open_fd
          then rename_to_closed mgr block old new s
          else rename_to_open mgr block old open_fd s)
      else if not (is_path_replaced new)
      then say E IsfsError.invalid s
      else rename_replaced old new s

  -- The tests of [ISFS_Rename], on the buffer and on the two paths that it holds.
  unfoldable pub rename_checked : ℤ → ℕ → Buffer → OutBuffer → List ℕ → List ℕ → Handler E
  rename_checked mgr cmd in_ io old new s =
      if not (aligned (in_address in_) 4)
      then say E IsfsError.invalid s
      else if ltb (length in_.bytes) rename_block_size
      then say E IsfsError.invalid s
      else if not (is_path_valid old) || not (is_path_valid new)
      then say E IsfsError.invalid s
      else rename_paths mgr cmd in_ io old new s

  -- [ISFS_Rename]
  unfoldable pub rename : ℤ → ℕ → Buffer → OutBuffer → Handler E
  rename mgr cmd in_ io s =
      rename_checked mgr cmd in_ io (c_string in_.bytes) (c_string (drop isfs_max_path in_.bytes)) s
