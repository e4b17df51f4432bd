-- ===== src/EmuFs/Tests.antt =====
-- Runs of the emulated file system over a small volume, whose calls all succeed.
use saoirse.Prelude.{
  inr, if◌then◌else◌, ℕ, ◌+◌, ◌≤◌, ◌<◌, ◌≡◌, ◌≢◌, ◌↔◌, refl, Bool, true, false, Option, none, some,
  List, [], ◌∷◌, arith, ltb, ◌==◌, if◌then◌else◌, ℤ, pos, negsuc, ◌+ℤ◌, length, codes, replicate,
  str_eq, has_prefix,
}
use saoirse.EmuFs.IsfsError
use saoirse.EmuFs.Env.{Env, fr_ok, is_ok, Command, open_file, read, write, seek, no_output, bytes}
use saoirse.EmuFs.Types.{
  to_isfs_error, State, Reply, ProxyFile, fil, dir, max_files, get_descriptor_type,
  is_manager_handle,
}
use saoirse.EmuFs.Table.{
  Files, is_file_descriptor_valid, register_file_descriptor, register_loop, take_slot, better_slot,
  available_loop, find_available_file_descriptor,
}
use saoirse.EmuFs.Paths.{
  is_path_valid, is_isfs_path_replaced, is_path_replaced, get_redirected_path,
}
use saoirse.EmuFs.Requests.{
  close_replaced_file, say, put, open_registered, req_proxy_open, req_direct_open_dir, req_read,
  req_write, req_seek, seek_to,
}
use saoirse.EmuFs.Ioctl.Rename.{c_string}
use saoirse.EmuFs.Ioctlv.{is_path_vector, bind_direct, direct_dir_open, direct_ioctlv, req_ioctlv}
use saoirse.EmuFs.Dispatch.{
  open_path, open_replaced, free_direct_loop, open_direct, dispatch, ipc_request, reset, serve,
}
use saoirse.EmuFs.Inv.{Inv}
use saoirse.EmuFs.Inv.Requests.{serve-Inv}
use saoirse.EmuFs.Search.{find_available_exact}
use saoirse.EmuFs.Reopen.{open_twice_locked}
use saoirse.EmuFs.Access.{seek_exact}
use saoirse.EmuFs.Answers.{ipc_request-answers}

-- A file is its position; every file has 100 bytes. The volume counts the calls.
abbrev demo : Env
demo = record {
  World = ℕ;
  Fil = ℕ;
  Dir = ℕ;
  f_open = λ path mode w. (fr_ok, 0, w + 1);
  f_close = λ o w. (fr_ok, o, w + 1);
  f_sync = λ o w. (fr_ok, o, w + 1);
  f_truncate = λ o w. (fr_ok, o, w + 1);
  f_lseek = λ at o w. (fr_ok, at, w + 1);
  f_read = λ len o w. (fr_ok, replicate len 7, o + len, w + 1);
  f_write = λ input o w. (fr_ok, length input, o + length input, w + 1);
  f_tell = λ o. o;
  f_size = λ o. 100;
  f_opendir = λ path w. (fr_ok, 0, w + 1);
  f_readdir = λ d w. (fr_ok, record { fname = []; altname = []; fattrib = 0; fsize = 0 }, d, w + 1);
  f_closedir = λ d w. (fr_ok, w + 1);
  f_mkdir = λ path w. (fr_ok, w + 1);
  f_stat = λ path w. (fr_ok, w + 1);
  f_unlink = λ path w. (fr_ok, w + 1);
  f_rename = λ old new w. (fr_ok, w + 1);
  ios_request = λ fd cmd w. (pos 0, no_output, w + 1);
  ios_open = λ path mode w. (pos 0, w + 1);
  ios_open_as = λ path uid gid w. (pos 0, w + 1);
  ios_close = λ fd w. (pos 0, w + 1);
  ios_file_size = λ fd w. (some 0, w + 1);
  ios_file_read = λ fd len w. (pos len, replicate len 7, w + 1);
  max_entries = 10;
  uid = 0;
  gid = 0;
}

abbrev start : State demo
start = reset demo 0

abbrev save_path : List ℕ
save_path = codes "/title/00010000/save"

-- A run from the start; its line names what a run computes through.
run : List (ℤ × Command) → Option (List (Reply demo) × State demo)
unfolding serve ipc_request dispatch reset get_descriptor_type is_file_descriptor_valid
    open_replaced open_path str_eq has_prefix is_path_replaced is_path_valid is_isfs_path_replaced
    req_proxy_open get_redirected_path register_file_descriptor register_loop better_slot take_slot
    open_registered is_ok req_read req_write req_seek seek_to is_path_vector bind_direct
    direct_dir_open direct_ioctlv req_ioctlv c_string free_direct_loop open_direct
    req_direct_open_dir find_available_file_descriptor available_loop is_manager_handle
run reqs = serve demo reqs start

abbrev state_of : Option (List (Reply demo) × State demo) → State demo
state_of none = start
state_of (some (rs, s)) = s

abbrev replies_of : Option (List (Reply demo) × State demo) → List (Reply demo)
replies_of none = []
replies_of (some (rs, s)) = rs

-- A replaced file is opened, read and moved in.
abbrev script : List (ℤ × Command)
script =
    (pos 0, open_file (codes "$title/00010000/save") 1 0 0)
    ∷ (pos 0, read 2)
    ∷ (pos 0, write (1 ∷ []))
    ∷ (pos 0, seek (negsuc 0) (pos 1))
    ∷ []

abbrev used : State demo
used = state_of (run script)

script_replies :
    replies_of (run script)
    ≡ record { ret = pos 0; out = no_output }
      ∷ record { ret = pos 2; out = bytes (7 ∷ 7 ∷ []) }
      ∷ record { ret = negsuc 101; out = no_output }
      ∷ record { ret = pos 1; out = no_output }
      ∷ []
unfolding run
script_replies = refl

-- Slots that are free, with a file kept open or not, in use by a file, and in use by a directory.
abbrev slot_with : Bool → Bool → Bool → ProxyFile demo
slot_with used opened is_dir = record {
  ipc_file = true;
  in_use = used;
  fil_opened = opened;
  path = save_path;
  mode = 3;
  is_dir = is_dir;
  object = if is_dir then dir 0 else fil 0;
}

abbrev two_cached : Files demo
two_cached j = if ltb j 13 then slot_with true true false else slot_with false true false

find_available_exact_example :
    let fd = find_available_file_descriptor demo two_cached in
    ((fd ≡ IsfsError.max_open) ↔ ((j : ℕ) → j < max_files → (two_cached j).in_use ≡ true))
    × ((i : ℕ)
        → fd ≡ pos i
        → (i < max_files)
          × ((two_cached i).in_use ≡ false)
          × ((two_cached i).fil_opened ≡ true
              → (j : ℕ) → j < max_files
              → (two_cached j).in_use ≡ false
              → (two_cached j).fil_opened ≡ true))
find_available_exact_example = find_available_exact demo two_cached (λ j u. ground arith)

open_twice_locked_example :
    req_proxy_open demo save_path 3
      (state_of (run ((pos 0, open_file (codes "$title/00010000/save") 1 0 0) ∷ [])))
    ≡ say demo IsfsError.locked
        (state_of (run ((pos 0, open_file (codes "$title/00010000/save") 1 0 0) ∷ [])))
unfolding run
open_twice_locked_example =
    open_twice_locked demo save_path 1 3 start
      (state_of (run ((pos 0, open_file (codes "$title/00010000/save") 1 0 0) ∷ [])))
      (record { ret = pos 0; out = no_output }) 0 refl refl (omega arith)

seek_exact_example :
    let s = used in
    ((t : ℕ)
      → pos 100 +ℤ negsuc 9 ≡ pos t
      → 100 < t
      → req_seek demo (pos 0) (negsuc 9) (pos 2) s ≡ say demo IsfsError.invalid s)
    × ((n : ℕ)
        → pos 100 +ℤ negsuc 9 ≡ negsuc n
        → req_seek demo (pos 0) (negsuc 9) (pos 2) s ≡ say demo IsfsError.invalid s)
    × (pos 100 +ℤ negsuc 9 ≡ pos 1
        → req_seek demo (pos 0) (negsuc 9) (pos 2) s ≡ say demo (pos 1) s)
    × ((t : ℕ)
        → pos 100 +ℤ negsuc 9 ≡ pos t
        → t ≤ 100
        → (t == 1) ≡ false
        → req_seek demo (pos 0) (negsuc 9) (pos 2) s
          ≡ say demo
              (if is_ok fr_ok then pos t else to_isfs_error fr_ok)
              (put demo s 0 (record (s.files 0) { object = fil t }) (s.world + 1)))
unfolding run
seek_exact_example =
    seek_exact demo (pos 0) (negsuc 9) (pos 2) used 1 100 refl refl (omega arith) (omega arith)
      (omega arith) (inr (inr (refl, refl)))

ipc_request-answers_example :
    (ipc_request demo (pos 0) (read 5) used ≢ none)
    × ((len : ℕ) → req_read demo (pos 0) len used ≢ none)
    × ((input : List ℕ) → req_write demo (pos 0) input used ≢ none)
    × ((where_ whence : ℤ) → req_seek demo (pos 0) where_ whence used ≢ none)
    × (close_replaced_file demo (pos 0) used ≢ none)
unfolding run
ipc_request-answers_example =
    ipc_request-answers demo
      (serve-Inv demo 0 script {rs = replies_of (run script)} {s = used} refl) (pos 0) (read 5) tt
