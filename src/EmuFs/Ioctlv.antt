-- ===== src/EmuFs/Ioctlv.antt =====
-- ios/IOS/EmuFS.cpp, `ReqIoctlv`: the commands of a direct file, and the manager's ReadDir.
use saoirse.Prelude.{
  ℕ, zero, suc, ◌+◌, ◌-◌, ◌*◌, ◌%◌, ◌^◌, Bool, true, ◌&&◌, ◌||◌, not, Option, none, some, List, [],
  ◌∷◌, ◌++◌, ltb, leb, ◌==◌, if◌then◌else◌, ℤ, is_neg, eq_ℤ, length, take, aligned, str_eq, codes,
}
use saoirse.EmuFs.IsfsError
use saoirse.EmuFs.Env.{
  Env, Vector, Output, ioctlv, blank_stat, dir_stat, listing, FResult, FilInfo, is_ok,
}
use saoirse.EmuFs.Types.{
  State, Reply, Handler, dir, update, max_files, direct_handle_base, mgr_handle_base,
  efs_max_path_len, isfs_max_path, get_descriptor_type, is_manager_handle, to_isfs_error,
}
use saoirse.EmuFs.Table.{slot, get_dir}
use saoirse.EmuFs.Paths.{is_path_replaced, get_redirected_path}
use saoirse.EmuFs.Requests.{say, is_direct, req_direct_open, req_direct_open_dir}
use saoirse.EmuFs.Ioctl.Rename.{c_string}

-- the size of an `ISFSDirect_Stat`
abbrev direct_stat_size : ℕ
direct_stat_size = 2072

-- `vec[i]`; a vector that is not there is read as an empty one
abbrev pub vec_at : List Vector → ℕ → Vector
vec_at [] i = record { address = 0; len = 0; bytes = [] }
vec_at (v ∷ vs) zero = v
vec_at (v ∷ vs) (suc i) = vec_at vs i

-- an empty vector is taken as the null pointer
abbrev vec_address : Vector → ℕ
vec_address v = if v.len == 0 then 0 else v.address

-- the big-endian number that a vector holds
abbrev pub vec_word : Vector → ℕ
vec_word v = go v.bytes
  where
    go : List ℕ → ℕ
    go (a ∷ b ∷ c ∷ d ∷ _) = a * 2 ^ 24 + b * 2 ^ 16 + c * 2 ^ 8 + d
    go _ = 0

-- the tests on a path: its length, and a terminator within it
unfoldable pub is_path_vector : Vector → Bool
is_path_vector v =
    not (ltb v.len 1)
    && not (ltb efs_max_path_len v.len)
    && ltb (length (c_string (take v.len v.bytes))) v.len

module _ (E : Env) where
  open E use {World, Dir, f_opendir, f_readdir, f_closedir, ios_request, max_entries}

  -- a direct file bound to the slot that an open gave, or the error of that open
  unfoldable pub bind_direct : ℕ → Option (Reply E × State E) → Option (Reply E × State E)
  bind_direct i none = none
  bind_direct i (some (r, s)) =
      if is_neg r.ret
      then say E r.ret s
      else say E IsfsError.ok
          (record s { direct = update s.direct i (record { in_use = true; fd = r.ret }) })

  -- [Direct_Open]
  unfoldable pub direct_open : ℕ → ℕ → ℕ → List Vector → Handler E
  direct_open i in_count out_count vec s =
      let path = vec_at vec 0 in
      let mode = vec_at vec 1 in
      if not (in_count == 2) || not (out_count == 0)
      then say E IsfsError.invalid s
      else if not (is_path_vector path) || not (mode.len == 4) || not (aligned (vec_address mode) 4)
      then say E IsfsError.invalid s
      else if not (eq_ℤ (s.direct i).fd IsfsError.not_found)
      then say E IsfsError.invalid s
      else bind_direct i (req_direct_open E (c_string path.bytes) (vec_word mode) s)

  -- [Direct_DirOpen]
  unfoldable pub direct_dir_open : ℕ → ℕ → ℕ → List Vector → Handler E
  direct_dir_open i in_count out_count vec s =
      let path = vec_at vec 0 in
      if not (in_count == 1) || not (out_count == 0)
      then say E IsfsError.invalid s
      else if not (is_path_vector path)
      then say E IsfsError.invalid s
      else if not (eq_ℤ (s.direct i).fd IsfsError.not_found)
      then say E IsfsError.invalid s
      else bind_direct i (req_direct_open_dir E (c_string path.bytes) s)

  abbrev tell : Output → ℤ → State E → Option (Reply E × State E)
  tell out r s = some (record { ret = r; out = out }, s)

  -- The part of [Direct_DirNext] that reads the next entry of the directory in slot `k`.
  unfoldable pub dir_next : ℕ → Handler E
  dir_next k s =
      let f = s.files k in
      if not f.is_dir then tell blank_stat IsfsError.invalid s else elim (get_dir E f.object) [
        | none ↦ none
        | some d ↦
            let (fret, info, d', w) = f_readdir d s.world in
            let s' : State E = record s {
              files = update s.files k (record f { object = dir d' });
              world = w;
            } in
            if not (is_ok fret)
            then tell blank_stat (to_isfs_error fret) s'
            else if length info.fname == 0
            then tell blank_stat IsfsError.ok s'
            else tell (dir_stat info) IsfsError.ok s'
      ]

  -- [Direct_DirNext]; `sFileArray[realFd]` faults where `realFd` is no index
  unfoldable pub direct_dir_next : ℕ → ℕ → ℕ → List Vector → Handler E
  direct_dir_next i in_count out_count vec s =
      let d = s.direct i in
      if not (in_count == 0) || not (out_count == 1)
      then say E IsfsError.invalid s
      else if not ((vec_at vec 0).len == direct_stat_size)
      then say E IsfsError.invalid s
      else if not d.in_use || eq_ℤ d.fd IsfsError.not_found
      then tell blank_stat IsfsError.invalid s
      else if is_neg d.fd || not (ltb (slot d.fd) max_files)
      then none
      else dir_next (slot d.fd) s

  -- The name under which ReadDir lists an entry, if it does: a long name by its short form.
  unfoldable pub listed_name : FilInfo → Option (List ℕ)
  listed_name info =
      if ltb 12 (length info.fname)
      then (if ltb (length info.altname) 1 || str_eq info.altname (codes "?")
          then none
          else some info.altname)
      else some info.fname

  -- The names that are written, and the count of all; `count < INT_MAX` is asserted.
  unfoldable pub list_entry : ℕ → Option (List ℕ) → List (List ℕ) → ℕ → List (List ℕ) × ℕ
  list_entry max none names count = (names, count)
  list_entry max (some n) names count =
      (if ltb count max then names ++ (take 13 n ∷ []) else names, count + 1)

  -- The loop of ReadDir, with the rounds left: the names, the count, and the last result.
  unfoldable pub read_dir_loop :
      ℕ → ℕ → List (List ℕ) → ℕ → Dir → World → Option (List (List ℕ) × ℕ × FResult × Dir × World)
  read_dir_loop zero max names count d w = none
  read_dir_loop (suc rounds) max names count d w =
      let (fret, info, d', w') = f_readdir d w in
      let (names', count') = list_entry max (listed_name info) names count in
      let rest = read_dir_loop rounds max names' count' d' w' in
      if not (is_ok fret) || length info.fname == 0
      then some (names, count, fret, d', w')
      else if leb (2 ^ 31) count'
      then none
      else rest

  -- The part of [ReadDir] that lists a redirected directory.
  unfoldable pub list_directory : ℕ → List ℕ → Handler E
  list_directory max efs_path s =
      let (fret, d, w) = f_opendir efs_path s.world in
      if not (is_ok fret)
      then say E (to_isfs_error fret) (record s { world = w })
      else elim (read_dir_loop (max_entries + 1) max [] 0 d w) [
        | none ↦ none
        | some (names, count, fret', d', w') ↦
            let (closed, w2) = f_closedir d' w' in
            let s' : State E = record s { world = w2 } in
            if not (is_ok closed)
            then tell (listing names 0) IsfsError.unknown s'
            else if not (is_ok fret')
            then tell (listing names 0) (to_isfs_error fret') s'
            else tell (listing names count) IsfsError.ok s'
      ]

  -- the vectors of [ReadDir] after its path: the room for names, if there is any
  abbrev bad_words : Vector → Bool
  bad_words v = not (aligned (vec_address v) 4) || ltb v.len 4

  unfoldable pub bad_read_dir : ℕ → List Vector → Bool
  bad_read_dir in_count vec =
      let names = vec_at vec 2 in
      if in_count == 2
      then bad_words (vec_at vec 1)
        || not (aligned (vec_address names) 4)
        || ltb names.len (vec_word (vec_at vec 1) * 13 % 2 ^ 32)
        || bad_words (vec_at vec 3)
      else bad_words (vec_at vec 1)

  unfoldable pub forward_ioctlv : ℤ → ℕ → ℕ → ℕ → List Vector → Handler E
  forward_ioctlv mgr cmd in_count out_count vec s =
      let (r, out, w) = ios_request mgr (ioctlv cmd in_count out_count vec) s.world in
      tell out r (record s { world = w })

  -- [ReadDir]
  unfoldable pub read_dir : ℤ → ℕ → ℕ → ℕ → List Vector → Handler E
  read_dir mgr cmd in_count out_count vec s =
      let head = vec_at vec 0 in
      let path = c_string (take isfs_max_path head.bytes) in
      let max = if in_count == 2 then vec_word (vec_at vec 1) else 0 in
      if not (in_count == out_count) || ltb in_count 1 || ltb 2 in_count
      then say E IsfsError.invalid s
      else if not (aligned (vec_address head) 4) || ltb head.len isfs_max_path
      then say E IsfsError.invalid s
      else if bad_read_dir in_count vec
      then say E IsfsError.invalid s
      else if not (is_path_replaced path)
      then forward_ioctlv mgr cmd in_count out_count vec s
      else elim (get_redirected_path path efs_max_path_len) [
        | none ↦ say E IsfsError.invalid s
        | some efs_path ↦ list_directory max efs_path s
      ]

  -- the `switch` on the command of a direct file
  unfoldable pub direct_ioctlv : ℕ → ℕ → ℕ → ℕ → List Vector → Handler E
  direct_ioctlv i cmd in_count out_count vec s =
      if cmd == 0x1000
      then direct_open i in_count out_count vec s
      else if cmd == 0x1001
      then direct_dir_open i in_count out_count vec s
      else if cmd == 0x1002
      then direct_dir_next i in_count out_count vec s
      else say E IsfsError.invalid s

  -- the `switch` on the command of the manager, whose descriptor is asserted to be open
  unfoldable pub manager_ioctlv : ℤ → ℕ → ℕ → ℕ → List Vector → Handler E
  manager_ioctlv mgr cmd in_count out_count vec s =
      if is_neg mgr
      then none
      else if cmd == 0x4
      then read_dir mgr cmd in_count out_count vec s
      else if cmd == 0xC
      then forward_ioctlv mgr cmd in_count out_count vec s
      else say E IsfsError.invalid s

  -- `ReqIoctlv`
  unfoldable pub req_ioctlv : ℤ → ℕ → ℕ → ℕ → List Vector → Handler E
  req_ioctlv fd cmd in_count out_count vec s =
      if leb 32 in_count || leb 32 out_count
      then say E IsfsError.invalid s
      else if is_direct E (get_descriptor_type fd)
      then direct_ioctlv (slot fd - direct_handle_base) cmd in_count out_count vec s
      else if not (is_manager_handle fd)
      then say E IsfsError.invalid s
      else manager_ioctlv (s.mgr (slot fd - mgr_handle_base)) cmd in_count out_count vec s
