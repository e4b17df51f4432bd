-- ===== src/EmuFs/Dispatch.antt =====
-- ios/IOS/EmuFS.cpp, `IPCRequest`: where a request goes, and opening.
use saoirse.Prelude.{
  ℕ, zero, suc, ◌+◌, ◌-◌, Bool, true, false, ◌&&◌, ◌||◌, not, Option, none, some, List, [], ◌∷◌,
  ◌==◌, if◌then◌else◌, ℤ, pos, negsuc, is_neg, take, drop, codes, str_eq, has_prefix,
}
use saoirse.EmuFs.IosError
use saoirse.EmuFs.IsfsError
use saoirse.EmuFs.Env.{Env, Command, open_file, close, read, write, seek, ioctl, ioctlv, reply}
use saoirse.EmuFs.Types.{
  DirectFile, State, Reply, Handler, update, max_files, real_handle_base, mgr_handle_base,
  mgr_handle_max, direct_handle_base, DescType, real, get_descriptor_type, in_block, blank,
}
use saoirse.EmuFs.Table.{slot, is_file_descriptor_valid}
use saoirse.EmuFs.Paths.{is_path_replaced, starts_with_char}
use saoirse.EmuFs.Requests.{
  say, is_direct, req_proxy_open, req_close, req_read, req_write, req_seek,
}
use saoirse.EmuFs.Ioctl.{req_ioctl}
use saoirse.EmuFs.Ioctlv.{req_ioctlv}

abbrev pub is_open : Command → Bool
is_open (open_file path mode uid gid) = true
is_open _ = false

abbrev pub is_real : DescType → Bool
is_real real = true
is_real _ = false

-- the commands that a direct file passes on to its slot
abbrev pub goes_to_slot : Command → Bool
goes_to_slot (read len) = true
goes_to_slot (write input) = true
goes_to_slot (seek where_ whence) = true
goes_to_slot (ioctl cmd in_ io) = true
goes_to_slot _ = false

module _ (E : Env) where
  open E use {World, ios_request, ios_open_as}

  -- `ForwardRequest`: its assertions, and the same command on the kernel's descriptor
  unfoldable pub forward_request : ℤ → Command → Handler E
  forward_request fd (open_file path mode uid gid) s = none
  forward_request fd reply s =
      if in_block real_handle_base max_files fd then say E IsfsError.invalid s else none
  forward_request fd cmd s =
      if in_block real_handle_base max_files fd
      then (let (r, out, w) = ios_request (pos (slot fd - real_handle_base)) cmd s.world in
          some (record { ret = r; out = out }, record s { world = w }))
      else none

  -- the loop that looks for a manager handle that is not open
  unfoldable pub free_mgr_loop : (ℕ → ℤ) → ℕ → ℕ → ℕ
  free_mgr_loop mgr zero i = i
  free_mgr_loop mgr (suc rounds) i =
      let rest = free_mgr_loop mgr rounds (i + 1) in if is_neg (mgr i) then i else rest

  -- The part of `OpenReplaced` that opens `/dev/fs` under the caller's user and group.
  unfoldable pub open_manager : ℕ → ℕ → Handler E
  open_manager uid gid s =
      let i = free_mgr_loop s.mgr mgr_handle_max 0 in
      let (r, w) = ios_open_as (codes "/dev/fs") uid gid s.world in
      let s' : State E = record s { mgr = update s.mgr i r; world = w } in
      if i == mgr_handle_max
      then none
      else if is_neg r
      then say E r s'
      else say E (pos (mgr_handle_base + i)) s'

  -- The choice of `OpenReplaced`, on the path that it has put together.
  unfoldable pub open_path : ℤ → List ℕ → List ℕ → ℕ → ℕ → ℕ → Handler E
  open_path fd path raw mode uid gid s =
      if str_eq path (codes "/dev/fs")
      then open_manager uid gid s
      else if has_prefix path (codes "/dev")
      then say E IosError.not_found s
      else if is_path_replaced path
      then req_proxy_open E path mode s
      else forward_request fd (open_file raw mode uid gid) s

  -- `OpenReplaced`; the first byte of the path, a `$`, becomes the separator
  unfoldable pub open_replaced : ℤ → List ℕ → ℕ → ℕ → ℕ → Handler E
  open_replaced fd raw mode uid gid s =
      open_path fd (b'/' ∷ drop 1 (take 64 raw)) raw mode uid gid s

  -- the loop that looks for a direct file that is not in use
  unfoldable pub free_direct_loop : (ℕ → DirectFile E) → ℕ → ℕ → ℕ
  free_direct_loop ds zero i = i
  free_direct_loop ds (suc rounds) i =
      let rest = free_direct_loop ds rounds (i + 1) in if (ds i).in_use then rest else i

  -- The part of `IPCRequest` that opens a direct file.
  unfoldable pub open_direct : Handler E
  open_direct s =
      let i = free_direct_loop s.direct max_files 0 in
      if i == max_files
      then say E IsfsError.max_open s
      else say E (pos (direct_handle_base + i)) (record s {
        direct = update s.direct i (record { in_use = true; fd = IsfsError.not_found });
      })

  -- the `switch` of `IPCRequest`
  unfoldable pub dispatch : ℤ → Command → Handler E
  dispatch fd (open_file path mode uid gid) s =
      if starts_with_char b'$' path
      then open_replaced fd path mode uid gid s
      else if str_eq path (codes "/dev/saoirse/file")
      then open_direct s
      else say E IosError.not_found s
  dispatch fd close s = req_close E fd s
  dispatch fd (read len) s = req_read E fd len s
  dispatch fd (write input) s = req_write E fd input s
  dispatch fd (seek where_ whence) s = req_seek E fd where_ whence s
  dispatch fd (ioctl cmd in_ io) s = req_ioctl E fd cmd in_ io s
  dispatch fd (ioctlv cmd in_count io_count vec) s = req_ioctlv E fd cmd in_count io_count vec s
  dispatch fd reply s = say E IsfsError.invalid s

  -- the slot of a direct file that is in use and has a valid one
  unfoldable pub dispatch_direct : ℤ → Command → Handler E
  dispatch_direct fd cmd s =
      let d = s.direct (slot fd - direct_handle_base) in
      if not d.in_use || not (is_file_descriptor_valid E s.files d.fd)
      then say E IsfsError.invalid s
      else dispatch d.fd cmd s

  -- `IPCRequest`
  unfoldable pub ipc_request : ℤ → Command → Handler E
  ipc_request fd cmd s =
      if not (is_open cmd) && is_real (get_descriptor_type fd)
      then forward_request fd cmd s
      else if is_direct E (get_descriptor_type fd) && goes_to_slot cmd
      then dispatch_direct fd cmd s
      else dispatch fd cmd s

module _ (E : Env) where
  open E use {World}

  -- `ThreadEntry` before its loop: no slot is in use or has an open file, no direct file is in use;
  -- the tables start as zeroes.
  unfoldable pub reset : World → State E
  reset w = record {
    files = λ i. record {
      ipc_file = false;
      in_use = false;
      fil_opened = false;
      path = [];
      mode = 0;
      is_dir = false;
      object = blank;
    };
    direct = λ i. record { in_use = false; fd = IsfsError.not_found };
    mgr = λ i. negsuc 0;
    world = w;
  }

  -- The loop of `ThreadEntry` over the requests that arrive.
  unfoldable pub serve : List (ℤ × Command) → State E → Option (List (Reply E) × State E)
  serve [] s = some ([], s)
  serve ((fd, cmd) ∷ reqs) s = elim (ipc_request E fd cmd s) [
    | none ↦ none
    | some (r, s') ↦ elim (serve reqs s') [ none ↦ none | some (rs, t) ↦ some (r ∷ rs, t) ]
  ]
