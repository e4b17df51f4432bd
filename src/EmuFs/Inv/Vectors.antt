-- ===== src/EmuFs/Inv/Vectors.antt =====
-- The ioctlv commands keep the invariant.
use saoirse.Prelude.{ℕ, ◌-◌, ◌≡◌, true, false, Option, none, some, List, arith, ℤ, is_neg, refl}
use saoirse.EmuFs.Env.{Env, Vector}
use saoirse.EmuFs.Types.{
  State, Reply, max_files, mgr_handle_base, direct_handle_base, isfs_mode_to_file_mode,
}
use saoirse.EmuFs.Errors.{is_neg-to_isfs_error}
use saoirse.EmuFs.Table.{slot, find_available_file_descriptor}
use saoirse.EmuFs.Requests.{req_direct_open, req_direct_open_dir}
use saoirse.EmuFs.Ioctl.Rename.{c_string}
use saoirse.EmuFs.Ioctlv.{
  vec_at, vec_word, bind_direct, direct_open, direct_dir_open, dir_next, direct_dir_next,
  list_directory, forward_ioctlv, read_dir, direct_ioctlv, manager_ioctlv, req_ioctlv,
}
use saoirse.EmuFs.Inv.{Inv, is_direct_fd}
use saoirse.EmuFs.Inv.Files.{available_loop-lt, req_direct_open-Inv, req_direct_open_dir-Inv}
use saoirse.EmuFs.Inv.Commands.{same_tables-Inv}

module _ (E : Env) {s : State E} (inv : Inv E s) where
  -- What `ReqDirectOpen` and `ReqDirectOpenDir` return is an error or the index of a slot.
  req_direct_open-fd :
      (path : List ℕ) (mode : ℕ) {r : Reply E} {s' : State E}
      → req_direct_open E path mode s ≡ some (r, s')
      → is_neg r.ret ≡ false
      → is_direct_fd r.ret ≡ true
  unfolding req_direct_open find_available_file_descriptor
  req_direct_open-fd path mode h p = ground (
    arith,
    available_loop-lt E s.files max_files 0 0 (omega arith) (omega arith),
    is_neg-to_isfs_error (E.f_open path (isfs_mode_to_file_mode mode) s.world).0,
  )

  req_direct_open_dir-fd :
      (path : List ℕ) {r : Reply E} {s' : State E}
      → req_direct_open_dir E path s ≡ some (r, s')
      → is_neg r.ret ≡ false
      → is_direct_fd r.ret ≡ true
  unfolding req_direct_open_dir find_available_file_descriptor
  req_direct_open_dir-fd path h p = ground (
    arith,
    available_loop-lt E s.files max_files 0 0 (omega arith) (omega arith),
    is_neg-to_isfs_error (E.f_opendir path s.world).0,
  )

module _ (E : Env) where
  bind_direct-Inv :
      (i : ℕ) (r0 : Reply E) (s0 : State E)
      → Inv E s0
      → (is_neg r0.ret ≡ false → is_direct_fd r0.ret ≡ true)
      → {r : Reply E} {s' : State E} → bind_direct E i (some (r0, s0)) ≡ some (r, s')
      → Inv E s'
  unfolding bind_direct
  bind_direct-Inv i r0 s0 inv bound h = record {
    files_ready = λ j. ground (arith, inv.files_ready j);
    direct_fds = λ j. ground (arith, inv.direct_fds j);
  }

  bind_opened-Inv :
      (i : ℕ) (o : Option (Reply E × State E))
      → ((r : Reply E) (s' : State E) → o ≡ some (r, s') → Inv E s')
      → ((r : Reply E) (s' : State E)
          → o ≡ some (r, s')
          → is_neg r.ret ≡ false
          → is_direct_fd r.ret ≡ true)
      → {r : Reply E} {s' : State E} → bind_direct E i o ≡ some (r, s')
      → Inv E s'
  unfolding bind_direct
  bind_opened-Inv i none keeps bound h = cc
  bind_opened-Inv i (some (r0, s0)) keeps bound h =
      bind_direct-Inv i r0 s0 (keeps r0 s0 refl) (bound r0 s0 refl) h

module _ (E : Env) {s : State E} (inv : Inv E s) where
  direct_open-Inv :
      (i in_count out_count : ℕ) (vec : List Vector) {r : Reply E} {s' : State E}
      → direct_open E i in_count out_count vec s ≡ some (r, s')
      → Inv E s'
  unfolding direct_open
  direct_open-Inv i in_count out_count vec {r} {s'} h =
      let path = c_string (vec_at vec 0).bytes in
      let mode = vec_word (vec_at vec 1) in
      ground (
        arith,
        inv,
        bind_opened-Inv E i (req_direct_open E path mode s)
            (λ r0 s0 e. req_direct_open-Inv E inv path mode e)
            (λ r0 s0 e. req_direct_open-fd E inv path mode e) {r = r} {s' = s'},
      )

  direct_dir_open-Inv :
      (i in_count out_count : ℕ) (vec : List Vector) {r : Reply E} {s' : State E}
      → direct_dir_open E i in_count out_count vec s ≡ some (r, s')
      → Inv E s'
  unfolding direct_dir_open
  direct_dir_open-Inv i in_count out_count vec {r} {s'} h =
      let path = c_string (vec_at vec 0).bytes in
      ground (
        arith,
        inv,
        bind_opened-Inv E i (req_direct_open_dir E path s)
            (λ r0 s0 e. req_direct_open_dir-Inv E inv path e)
            (λ r0 s0 e. req_direct_open_dir-fd E inv path e) {r = r} {s' = s'},
      )

  dir_next-Inv : (k : ℕ) {r : Reply E} {s' : State E} → dir_next E k s ≡ some (r, s') → Inv E s'
  unfolding dir_next
  dir_next-Inv k h = record {
    files_ready = λ j. ground (arith, inv.files_ready j, inv.files_ready k);
    direct_fds = λ j. ground (arith, inv.direct_fds j);
  }

  direct_dir_next-Inv :
      (i in_count out_count : ℕ) (vec : List Vector) {r : Reply E} {s' : State E}
      → direct_dir_next E i in_count out_count vec s ≡ some (r, s')
      → Inv E s'
  unfolding direct_dir_next
  direct_dir_next-Inv i in_count out_count vec h =
      grind (arith, inv, dir_next-Inv (slot (s.direct i).fd))

  read_dir-Inv :
      (mgr : ℤ) (cmd in_count out_count : ℕ) (vec : List Vector) {r : Reply E} {s' : State E}
      → read_dir E mgr cmd in_count out_count vec s ≡ some (r, s')
      → Inv E s'
  unfolding read_dir list_directory forward_ioctlv
  read_dir-Inv mgr cmd in_count out_count vec h =
      same_tables-Inv E inv (ground arith) (ground arith)

  manager_ioctlv-Inv :
      (mgr : ℤ) (cmd in_count out_count : ℕ) (vec : List Vector) {r : Reply E} {s' : State E}
      → manager_ioctlv E mgr cmd in_count out_count vec s ≡ some (r, s')
      → Inv E s'
  unfolding manager_ioctlv forward_ioctlv
  manager_ioctlv-Inv mgr cmd in_count out_count vec h =
      grind (arith, inv, read_dir-Inv mgr cmd in_count out_count vec, same_tables-Inv)

  direct_ioctlv-Inv :
      (i cmd in_count out_count : ℕ) (vec : List Vector) {r : Reply E} {s' : State E}
      → direct_ioctlv E i cmd in_count out_count vec s ≡ some (r, s')
      → Inv E s'
  unfolding direct_ioctlv
  direct_ioctlv-Inv i cmd in_count out_count vec {r} {s'} h = ground (
    arith,
    inv,
    direct_open-Inv i in_count out_count vec {r = r} {s' = s'},
    direct_dir_open-Inv i in_count out_count vec {r = r} {s' = s'},
    direct_dir_next-Inv i in_count out_count vec {r = r} {s' = s'},
  )

  pub req_ioctlv-Inv :
      (fd : ℤ) (cmd in_count out_count : ℕ) (vec : List Vector) {r : Reply E} {s' : State E}
      → req_ioctlv E fd cmd in_count out_count vec s ≡ some (r, s')
      → Inv E s'
  unfolding req_ioctlv
  req_ioctlv-Inv fd cmd in_count out_count vec {r} {s'} h = ground (
    arith,
    inv,
    direct_ioctlv-Inv (slot fd - direct_handle_base) cmd in_count out_count vec {r = r} {s' = s'},
    manager_ioctlv-Inv (s.mgr (slot fd - mgr_handle_base)) cmd in_count out_count vec {r = r}
        {s' = s'},
  )
