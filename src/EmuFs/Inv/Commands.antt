-- ===== src/EmuFs/Inv/Commands.antt =====
-- The commands of files, of the manager and of direct files keep the invariant.
use saoirse.Prelude.{ℕ, ◌-◌, ◌≡◌, some, List, arith, ℤ, take}
use saoirse.EmuFs.Env.{Env, Buffer, OutBuffer}
use saoirse.EmuFs.Types.{State, Reply, max_files, mgr_handle_base, isfs_max_path}
use saoirse.EmuFs.Table.{
  slot, available_loop, find_available_file_descriptor, find_open_file_descriptor,
  try_close_file_descriptor,
}
use saoirse.EmuFs.Ioctl.{
  IsfsIoctl, create_dir, set_attr, get_attr, delete, rename_file, create_file, isfs_ioctl,
  create_directory, set_attributes, get_attributes, delete_replaced, delete_path, create_at,
  create_file_path, file_stats, manager_ioctl, req_ioctl,
}
use saoirse.EmuFs.Ioctl.Rename.{
  forward_ioctl, finish_rename, rename_to_closed, rename_to_open, rename_replaced, rename_paths,
  rename_checked, rename, c_string,
}
use saoirse.EmuFs.Inv.{Inv}

-- A request that leaves the tables alone keeps the invariant.
pub same_tables-Inv :
    (E : Env) {s s' : State E} → Inv E s → s'.files ≡ s.files → s'.direct ≡ s.direct → Inv E s'
same_tables-Inv E inv f d = record {
  files_ready = λ j. rw f (inv.files_ready j);
  direct_fds = λ j. rw d (inv.direct_fds j);
}

module _ (E : Env) {s : State E} (inv : Inv E s) where
  finish_rename-Inv :
      (mgr : ℤ) (block : Buffer) (ret : ℤ) {r : Reply E} {s' : State E}
      → finish_rename E mgr block ret s ≡ some (r, s')
      → Inv E s'
  unfolding finish_rename forward_ioctl
  finish_rename-Inv mgr block ret h = same_tables-Inv E inv (ground arith) (ground arith)

  create_directory-Inv :
      (mgr : ℤ) (cmd : ℕ) (in_ : Buffer) (io : OutBuffer) {r : Reply E} {s' : State E}
      → create_directory E mgr cmd in_ io s ≡ some (r, s')
      → Inv E s'
  unfolding create_directory forward_ioctl
  create_directory-Inv mgr cmd in_ io h = same_tables-Inv E inv (ground arith) (ground arith)

  set_attributes-Inv :
      (mgr : ℤ) (cmd : ℕ) (in_ : Buffer) (io : OutBuffer) {r : Reply E} {s' : State E}
      → set_attributes E mgr cmd in_ io s ≡ some (r, s')
      → Inv E s'
  unfolding set_attributes forward_ioctl
  set_attributes-Inv mgr cmd in_ io h = same_tables-Inv E inv (ground arith) (ground arith)

  get_attributes-Inv :
      (mgr : ℤ) (cmd : ℕ) (in_ : Buffer) (io : OutBuffer) {r : Reply E} {s' : State E}
      → get_attributes E mgr cmd in_ io s ≡ some (r, s')
      → Inv E s'
  unfolding get_attributes forward_ioctl
  get_attributes-Inv mgr cmd in_ io h = same_tables-Inv E inv (ground arith) (ground arith)

  delete_path-Inv :
      (mgr : ℤ) (cmd : ℕ) (in_ : Buffer) (io : OutBuffer) {r : Reply E} {s' : State E}
      → delete_path E mgr cmd in_ io s ≡ some (r, s')
      → Inv E s'
  unfolding delete_path delete_replaced forward_ioctl try_close_file_descriptor
  delete_path-Inv mgr cmd in_ io h =
      let i = find_open_file_descriptor E s.files (c_string in_.bytes) in
      record {
        files_ready = λ j. ground (arith, inv.files_ready j, inv.files_ready i);
        direct_fds = λ j. ground (arith, inv.direct_fds j);
      }

  create_file_path-Inv :
      (mgr : ℤ) (cmd : ℕ) (in_ : Buffer) (io : OutBuffer) {r : Reply E} {s' : State E}
      → create_file_path E mgr cmd in_ io s ≡ some (r, s')
      → Inv E s'
  unfolding create_file_path create_at forward_ioctl find_available_file_descriptor
  create_file_path-Inv mgr cmd in_ io h =
      let i = available_loop E s.files max_files 0 0 in
      record {
        files_ready = λ j. ground (arith, inv.files_ready j, inv.files_ready i);
        direct_fds = λ j. ground (arith, inv.direct_fds j);
      }

  rename_to_closed-Inv :
      (mgr : ℤ) (block : Buffer) (old new : List ℕ) {r : Reply E} {s' : State E}
      → rename_to_closed E mgr block old new s ≡ some (r, s')
      → Inv E s'
  unfolding rename_to_closed finish_rename forward_ioctl
  rename_to_closed-Inv mgr block old new h = same_tables-Inv E inv (ground arith) (ground arith)

  rename_to_open-Inv :
      (mgr : ℤ) (block : Buffer) (old : List ℕ) (i : ℕ) {r : Reply E} {s' : State E}
      → rename_to_open E mgr block old i s ≡ some (r, s')
      → Inv E s'
  unfolding rename_to_open finish_rename forward_ioctl
  rename_to_open-Inv mgr block old i h = record {
    files_ready = λ j. ground (arith, inv.files_ready j, inv.files_ready i);
    direct_fds = λ j. ground (arith, inv.direct_fds j);
  }

module _ (E : Env) {s : State E} (inv : Inv E s) where
  rename_replaced-Inv :
      (old new : List ℕ) {r : Reply E} {s' : State E}
      → rename_replaced E old new s ≡ some (r, s')
      → Inv E s'
  unfolding rename_replaced
  rename_replaced-Inv old new h = same_tables-Inv E inv (ground arith) (ground arith)

  forward_ioctl-Inv :
      (mgr : ℤ) (cmd : ℕ) (in_ : Buffer) (io : OutBuffer) {r : Reply E} {s' : State E}
      → forward_ioctl E mgr cmd in_ io s ≡ some (r, s')
      → Inv E s'
  unfolding forward_ioctl
  forward_ioctl-Inv mgr cmd in_ io h = same_tables-Inv E inv (ground arith) (ground arith)

  rename_paths-Inv :
      (mgr : ℤ) (cmd : ℕ) (in_ : Buffer) (io : OutBuffer) (old new : List ℕ) {r : Reply E}
      {s' : State E}
      → rename_paths E mgr cmd in_ io old new s ≡ some (r, s')
      → Inv E s'
  unfolding rename_paths
  rename_paths-Inv mgr cmd in_ io old new {r} {s'} h =
      let block : Buffer = record { address = in_.address; bytes = take isfs_max_path in_.bytes } in
      let i = find_open_file_descriptor E s.files new in
      ground (
        arith,
        inv,
        forward_ioctl-Inv mgr cmd in_ io {r = r} {s' = s'},
        rename_to_closed-Inv E inv mgr block old new {r = r} {s' = s'},
        rename_to_open-Inv E inv mgr block old i {r = r} {s' = s'},
        rename_replaced-Inv old new {r = r} {s' = s'},
      )

  rename_checked-Inv :
      (mgr : ℤ) (cmd : ℕ) (in_ : Buffer) (io : OutBuffer) (old new : List ℕ) {r : Reply E}
      {s' : State E}
      → rename_checked E mgr cmd in_ io old new s ≡ some (r, s')
      → Inv E s'
  unfolding rename_checked
  rename_checked-Inv mgr cmd in_ io old new {r} {s'} h =
      ground (arith, inv, rename_paths-Inv mgr cmd in_ io old new {r = r} {s' = s'})

  rename-Inv :
      (mgr : ℤ) (cmd : ℕ) (in_ : Buffer) (io : OutBuffer) {r : Reply E} {s' : State E}
      → rename E mgr cmd in_ io s ≡ some (r, s')
      → Inv E s'
  unfolding rename
  rename-Inv mgr cmd in_ io h = rename_checked-Inv mgr cmd in_ io _ _ h

  file_stats-Inv :
      (fd : ℤ) (io : OutBuffer) {r : Reply E} {s' : State E}
      → file_stats E fd io s ≡ some (r, s')
      → Inv E s'
  unfolding file_stats
  file_stats-Inv fd io h = same_tables-Inv E inv (ground arith) (ground arith)

  manager_ioctl-Inv :
      (c : IsfsIoctl) (mgr : ℤ) (cmd : ℕ) (in_ : Buffer) (io : OutBuffer) {r : Reply E}
      {s' : State E}
      → manager_ioctl E c mgr cmd in_ io s ≡ some (r, s')
      → Inv E s'
  unfolding manager_ioctl
  manager_ioctl-Inv create_dir mgr cmd in_ io h = create_directory-Inv E inv mgr cmd in_ io h
  manager_ioctl-Inv set_attr mgr cmd in_ io h = set_attributes-Inv E inv mgr cmd in_ io h
  manager_ioctl-Inv get_attr mgr cmd in_ io h = get_attributes-Inv E inv mgr cmd in_ io h
  manager_ioctl-Inv delete mgr cmd in_ io h = delete_path-Inv E inv mgr cmd in_ io h
  manager_ioctl-Inv rename_file mgr cmd in_ io h = rename-Inv mgr cmd in_ io h
  manager_ioctl-Inv create_file mgr cmd in_ io h = create_file_path-Inv E inv mgr cmd in_ io h
  manager_ioctl-Inv _ mgr cmd in_ io h = same_tables-Inv E inv (ground arith) (ground arith)

  pub req_ioctl-Inv :
      (fd : ℤ) (cmd : ℕ) (in_ : Buffer) (io : OutBuffer) {r : Reply E} {s' : State E}
      → req_ioctl E fd cmd in_ io s ≡ some (r, s')
      → Inv E s'
  unfolding req_ioctl
  req_ioctl-Inv fd cmd in_ io h = grind (
    arith,
    inv,
    file_stats-Inv fd io,
    manager_ioctl-Inv (isfs_ioctl cmd) (s.mgr (slot fd - mgr_handle_base)) cmd in_ io,
  )
