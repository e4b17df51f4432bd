-- ===== src/EmuFs/Answers.antt =====
-- ios/IOS/EmuFS.cpp, which requests are answered, and which stop the thread: a failed assertion, or
-- an access outside an array.
use saoirse.Prelude.{
  ℕ, ◌+◌, ◌-◌, ◌≤◌, ◌<◌, ◌≡◌, ◌≢◌, Bool, true, false, ◌&&◌, Option, none, some, List, ◌∷◌, arith, ℤ,
  Bool-cases, inl, inr, eq_of_str_eq, ap, sym, ◌∙◌, zero, suc, pos, str_eq, codes, has_prefix, take,
  drop, refl, eq_ℤ, if◌then◌else◌,
}
use saoirse.EmuFs.IsfsError
use saoirse.EmuFs.Env.{
  Env, Command, open_file, close, read, write, seek, ioctl, ioctlv, reply, Buffer, OutBuffer,
}
use saoirse.EmuFs.Types.{
  State, Reply, DirectFile, max_files, direct_handle_base, is_manager_handle, get_descriptor_type,
}
use saoirse.EmuFs.Table.{slot, is_file_descriptor_valid}
use saoirse.EmuFs.Paths.{starts_with_char, is_path_replaced}
use saoirse.EmuFs.Requests.{
  req_close, close_direct, close_direct_file, close_replaced_file, req_read, req_write, req_seek,
  seek_to,
}
use saoirse.EmuFs.Ioctl.{req_ioctl, file_stats}
use saoirse.EmuFs.Dispatch.{
  forward_request, open_path, open_replaced, open_direct, free_direct_loop, dispatch,
  dispatch_direct, ipc_request, is_open, is_real, goes_to_slot,
}
use saoirse.EmuFs.Inv.{Inv}
use saoirse.EmuFs.Access.{valid_in_array}

module _ (E : Env) {s : State E} (inv : Inv E s) where
  req_read-answers : (fd : ℤ) (len : ℕ) → req_read E fd len s ≢ none
  unfolding req_read is_file_descriptor_valid
  req_read-answers fd len h = ground (arith, inv.files_ready (slot fd))

  req_write-answers : (fd : ℤ) (input : List ℕ) → req_write E fd input s ≢ none
  unfolding req_write is_file_descriptor_valid
  req_write-answers fd input h = ground (arith, inv.files_ready (slot fd))

  req_seek-answers : (fd where_ whence : ℤ) → req_seek E fd where_ whence s ≢ none
  unfolding req_seek seek_to is_file_descriptor_valid
  req_seek-answers fd where_ whence h = ground (arith, inv.files_ready (slot fd))

  close_replaced_file-answers : (fd : ℤ) → close_replaced_file E fd s ≢ none
  unfolding close_replaced_file is_file_descriptor_valid
  close_replaced_file-answers fd h = ground (arith, inv.files_ready (slot fd))

  file_stats-answers :
      (fd : ℤ) (io : OutBuffer)
      → is_file_descriptor_valid E s.files fd ≡ true
      → file_stats E fd io s ≢ none
  unfolding file_stats is_file_descriptor_valid
  file_stats-answers fd io v h = ground (arith, inv.files_ready (slot fd))

  req_ioctl-answers :
      (fd : ℤ) (cmd : ℕ) (in_ : Buffer) (io : OutBuffer)
      → is_manager_handle fd ≡ false
      → req_ioctl E fd cmd in_ io s ≢ none
  unfolding req_ioctl
  req_ioctl-answers fd cmd in_ io m h =
      ground (arith, file_stats-answers fd io, valid_in_array E fd s)

  -- A direct file that is in use is bound to a slot.
  abbrev pub IsBound : ℤ → Type 0
  IsBound fd =
      let d = s.direct (slot fd - direct_handle_base) in
      d.in_use ≡ true → eq_ℤ d.fd IsfsError.not_found ≡ false

  close_direct-answers :
      (i : ℕ)
      → ((s.direct i).in_use ≡ true → eq_ℤ (s.direct i).fd IsfsError.not_found ≡ false)
      → close_direct E i s ≢ none
  unfolding close_direct close_direct_file is_file_descriptor_valid
  close_direct-answers i b h =
      ground (arith, inv.files_ready (slot (s.direct i).fd), inv.direct_fds i)

  req_close-answers : (fd : ℤ) → is_manager_handle fd ≡ false → IsBound fd → req_close E fd s ≢ none
  unfolding req_close
  req_close-answers fd m b h =
      ground (
        arith,
        close_direct-answers (slot fd - direct_handle_base) b,
        close_replaced_file-answers fd,
      )

  -- The requests on files, with what they need to be answered.
  abbrev pub IsSafe : ℤ → Command → Type 0
  IsSafe fd (read len) = Unit
  IsSafe fd (write input) = Unit
  IsSafe fd (seek where_ whence) = Unit
  IsSafe fd (ioctl cmd in_ io) = is_manager_handle fd ≡ false
  IsSafe fd close = (is_manager_handle fd ≡ false) × IsBound fd
  IsSafe fd reply = Unit
  IsSafe fd _ = ⊥

  dispatch-answers : (fd : ℤ) (cmd : Command) → IsSafe fd cmd → dispatch E fd cmd s ≢ none
  unfolding dispatch
  dispatch-answers fd (open_file path mode uid gid) safe h = elim safe [ ]
  dispatch-answers fd close safe h = req_close-answers fd safe.0 safe.1 h
  dispatch-answers fd (read len) safe h = req_read-answers fd len h
  dispatch-answers fd (write input) safe h = req_write-answers fd input h
  dispatch-answers fd (seek where_ whence) safe h = req_seek-answers fd where_ whence h
  dispatch-answers fd (ioctl cmd in_ io) safe h = req_ioctl-answers fd cmd in_ io safe h
  dispatch-answers fd (ioctlv cmd in_count io_count vec) safe h = elim safe [ ]
  dispatch-answers fd reply safe h = cc

  -- A slot's index is no manager handle, so the commands that a direct file passes on stay safe.
  passed_on :
      (fd : ℤ) (cmd : Command)
      → is_file_descriptor_valid E s.files fd ≡ true
      → goes_to_slot cmd ≡ true
      → IsSafe fd cmd
  unfolding is_file_descriptor_valid is_manager_handle
  passed_on fd (open_file path mode uid gid) v g = absurd (ground arith)
  passed_on fd close v g = absurd (ground arith)
  passed_on fd (read len) v g = tt
  passed_on fd (write input) v g = tt
  passed_on fd (seek where_ whence) v g = tt
  passed_on fd (ioctl cmd in_ io) v g = ground arith
  passed_on fd (ioctlv cmd in_count io_count vec) v g = absurd (ground arith)
  passed_on fd reply v g = tt

  dispatch_direct-answers :
      (fd : ℤ) (cmd : Command) → goes_to_slot cmd ≡ true → dispatch_direct E fd cmd s ≢ none
  unfolding dispatch_direct
  dispatch_direct-answers fd cmd g h =
      let d = (s.direct (slot fd - direct_handle_base)).fd in
      elim (Bool-cases (is_file_descriptor_valid E s.files d)) [
        | inl v ↦ ground (arith, v, dispatch-answers d cmd (passed_on d cmd v g))
        | inr v ↦ ground (arith, v)
      ]

  forward_request-answers :
      (fd : ℤ) (cmd : Command)
      → is_open cmd ≡ false
      → is_real (get_descriptor_type fd) ≡ true
      → forward_request E fd cmd s ≢ none
  unfolding forward_request get_descriptor_type
  forward_request-answers fd (open_file path mode uid gid) o r h = absurd (ground arith)
  forward_request-answers fd _ o r h = ground arith

  -- In a state that keeps the invariant no assertion fails and no access leaves the array of files, on
  -- any descriptor, while a read, a write, a seek or an unknown command is answered; nor for an ioctl,
  -- unless it is for the manager; nor for a close, unless it is for the manager or for a direct file
  -- in use that was not given a file. The same holds of the parts that read, write, seek and close a
  -- file when they are called with a descriptor that is no index of the array.
  pub ipc_request-answers :
      (fd : ℤ) (cmd : Command)
      → IsSafe fd cmd
      → (ipc_request E fd cmd s ≢ none)
        × ((len : ℕ) → req_read E fd len s ≢ none)
        × ((input : List ℕ) → req_write E fd input s ≢ none)
        × ((where_ whence : ℤ) → req_seek E fd where_ whence s ≢ none)
        × (close_replaced_file E fd s ≢ none)
  unfolding ipc_request
  ipc_request-answers fd cmd safe = (
    λ h. ground (
      arith,
      no_open fd cmd safe,
      forward_request-answers fd cmd,
      dispatch_direct-answers fd cmd,
      dispatch-answers fd cmd safe,
    ),
    req_read-answers fd,
    req_write-answers fd,
    req_seek-answers fd,
    close_replaced_file-answers fd,
  )
    where
      no_open : (fd : ℤ) (cmd : Command) → IsSafe fd cmd → is_open cmd ≡ false
      no_open fd (open_file path mode uid gid) safe = elim safe [ ]
      no_open fd _ safe = refl

module _ (E : Env) where
  free_direct_loop-le :
      (ds : ℕ → DirectFile E) (rounds i : ℕ) → free_direct_loop E ds rounds i ≤ i + rounds
  unfolding free_direct_loop
  free_direct_loop-le ds zero i = omega arith
  free_direct_loop-le ds (suc rounds) i = ground (arith, free_direct_loop-le ds rounds (i + 1))

  -- What an open of a direct file leaves, where it succeeds.
  open_direct-opens :
      (s s' : State E) (r : Reply E) (k : ℕ)
      → open_direct E s ≡ some (r, s')
      → r.ret ≡ pos k
      → (i : ℕ) × (i < max_files)
        × (k ≡ direct_handle_base + i)
        × ((s'.direct i).in_use ≡ true)
        × ((s'.direct i).fd ≡ IsfsError.not_found)
  unfolding open_direct
  open_direct-opens s s' r k h e =
      let le = free_direct_loop-le s.direct max_files 0 in
      (
        free_direct_loop E s.direct max_files 0,
        ground (arith, le),
        ground (arith, le),
        ground (arith, le),
        ground (arith, le),
      )

  close_direct_unbound :
      (s : State E) (i : ℕ)
      → (s.direct i).in_use ≡ true
      → (s.direct i).fd ≡ IsfsError.not_found
      → close_direct E i s ≡ none
  unfolding close_direct
  close_direct_unbound s i u f = ground arith

  pub close_goes :
      (s : State E) (i : ℕ)
      → i < max_files
      → ipc_request E (pos (direct_handle_base + i)) close s ≡ close_direct E i s
  unfolding ipc_request dispatch req_close get_descriptor_type is_manager_handle
  close_goes s i h =
      let same : direct_handle_base + i - direct_handle_base ≡ i = omega arith in
      ground (arith, same)

  -- A direct file that was opened, and not given a file, cannot be closed: the request reads
  -- `sFileArray` at ISFSError::NotFound.
  pub close_unbound_faults :
      (s s' : State E) (mode uid gid : ℕ) (r : Reply E) (k : ℕ) (other : ℤ)
      → ipc_request E other (open_file (codes "/dev/saoirse/file") mode uid gid) s ≡ some (r, s')
      → r.ret ≡ pos k
      → ipc_request E (pos k) close s' ≡ none
  unfolding str_eq
  close_unbound_faults s s' mode uid gid r k other h e =
      let (i, lt, is_k, u, f) = open_direct-opens s s' r k (goes h) e in
      rw (is_k, close_goes s' i lt) (close_direct_unbound s' i u f)
    where
      goes :
          ipc_request E other (open_file (codes "/dev/saoirse/file") mode uid gid) s ≡ some (r, s')
          → open_direct E s ≡ some (r, s')
      goes h = unfold ipc_request dispatch in ground arith

  dev_fs_is_dev :
      (p : List ℕ) → has_prefix p (codes "/dev") ≡ false → str_eq p (codes "/dev/fs") ≡ false
  unfolding has_prefix
  dev_fs_is_dev p h = elim (Bool-cases (str_eq p (codes "/dev/fs"))) [
    | inl e ↦
        let bad : true ≡ false =
          ap (λ q. has_prefix q (codes "/dev")) (sym (eq_of_str_eq p (codes "/dev/fs") e)) ∙ h in
        cc
    | inr e ↦ e
  ]

  open_path_aborts :
      (s : State E) (fd : ℤ) (path raw : List ℕ) (mode uid gid : ℕ)
      → has_prefix path (codes "/dev") ≡ false
      → is_path_replaced path ≡ false
      → open_path E fd path raw mode uid gid s ≡ none
  unfolding open_path forward_request
  open_path_aborts s fd path raw mode uid gid dev rep = rw (dev_fs_is_dev path dev, dev, rep)

  -- Opening a path that begins with `$`, is not of a device and is not replaced always fails an
  -- assertion, in every state.
  pub open_unreplaced_aborts :
      (s : State E) (raw : List ℕ) (fd : ℤ) (mode uid gid : ℕ)
      → starts_with_char b'$' raw ≡ true
      → has_prefix (b'/' ∷ drop 1 (take 64 raw)) (codes "/dev") ≡ false
      → is_path_replaced (b'/' ∷ drop 1 (take 64 raw)) ≡ false
      → ipc_request E fd (open_file raw mode uid gid) s ≡ none
  open_unreplaced_aborts s raw fd mode uid gid dollar dev rep =
      goes ∙ open_path_aborts s fd (b'/' ∷ drop 1 (take 64 raw)) raw mode uid gid dev rep
    where
      no_slot : (b : Bool) (x y : Option (Reply E × State E)) → (if b && false then x else y) ≡ y
      no_slot true x y = refl
      no_slot false x y = refl

      goes :
          ipc_request E fd (open_file raw mode uid gid) s
          ≡ open_path E fd (b'/' ∷ drop 1 (take 64 raw)) raw mode uid gid s
      goes = unfold ipc_request dispatch open_replaced in rw (no_slot, dollar)
