-- ===== src/EmuFs/Inv/Files.antt =====
-- The requests on files keep the invariant.
use saoirse.Prelude.{ℕ, ◌+◌, ◌-◌, ◌≤◌, ◌<◌, ◌≡◌, some, List, arith, ℤ, zero, suc}
use saoirse.EmuFs.Env.{Env}
use saoirse.EmuFs.Types.{State, Reply, max_files, mgr_handle_base, direct_handle_base}
use saoirse.EmuFs.Table.{
  slot, is_file_descriptor_valid, free_file_descriptor, better_slot, available_loop,
  find_available_file_descriptor, Files,
}
use saoirse.EmuFs.Requests.{
  req_read, req_write, req_seek, seek_to, close_replaced_file, close_direct_file, close_manager,
  close_direct, req_close, req_direct_open, req_direct_open_dir,
}
use saoirse.EmuFs.Inv.{Inv}

module _ (E : Env) {s : State E} (inv : Inv E s) where
  pub req_read-Inv :
      (fd : ℤ) (len : ℕ) {r : Reply E} {s' : State E}
      → req_read E fd len s ≡ some (r, s')
      → Inv E s'
  unfolding req_read is_file_descriptor_valid
  req_read-Inv fd len h = record {
    files_ready = λ j. ground (arith, inv.files_ready j, inv.files_ready (slot fd));
    direct_fds = λ j. ground (arith, inv.direct_fds j);
  }

  pub req_write-Inv :
      (fd : ℤ) (input : List ℕ) {r : Reply E} {s' : State E}
      → req_write E fd input s ≡ some (r, s')
      → Inv E s'
  unfolding req_write is_file_descriptor_valid
  req_write-Inv fd input h = record {
    files_ready = λ j. ground (arith, inv.files_ready j, inv.files_ready (slot fd));
    direct_fds = λ j. ground (arith, inv.direct_fds j);
  }

  pub req_seek-Inv :
      (fd where_ whence : ℤ) {r : Reply E} {s' : State E}
      → req_seek E fd where_ whence s ≡ some (r, s')
      → Inv E s'
  unfolding req_seek seek_to is_file_descriptor_valid
  req_seek-Inv fd where_ whence h = record {
    files_ready = λ j. ground (arith, inv.files_ready j, inv.files_ready (slot fd));
    direct_fds = λ j. ground (arith, inv.direct_fds j);
  }

  close_replaced_file-Inv :
      (fd : ℤ) {r : Reply E} {s' : State E} → close_replaced_file E fd s ≡ some (r, s') → Inv E s'
  unfolding close_replaced_file free_file_descriptor is_file_descriptor_valid
  close_replaced_file-Inv fd h = record {
    files_ready = λ j. ground (arith, inv.files_ready j, inv.files_ready (slot fd));
    direct_fds = λ j. ground (arith, inv.direct_fds j);
  }

  close_direct_file-Inv :
      (fd : ℤ) {r : Reply E} {s' : State E} → close_direct_file E fd s ≡ some (r, s') → Inv E s'
  unfolding close_direct_file free_file_descriptor is_file_descriptor_valid
  close_direct_file-Inv fd h = record {
    files_ready = λ j. ground (arith, inv.files_ready j, inv.files_ready (slot fd));
    direct_fds = λ j. ground (arith, inv.direct_fds j);
  }

  pub req_direct_open-Inv :
      (path : List ℕ) (mode : ℕ) {r : Reply E} {s' : State E}
      → req_direct_open E path mode s ≡ some (r, s')
      → Inv E s'
  unfolding req_direct_open find_available_file_descriptor
  req_direct_open-Inv path mode h =
      let i = available_loop E s.files max_files 0 0 in
      record {
        files_ready = λ j. ground (arith, inv.files_ready j, inv.files_ready i);
        direct_fds = λ j. ground (arith, inv.direct_fds j);
      }

  pub req_direct_open_dir-Inv :
      (path : List ℕ) {r : Reply E} {s' : State E}
      → req_direct_open_dir E path s ≡ some (r, s')
      → Inv E s'
  unfolding req_direct_open_dir find_available_file_descriptor
  req_direct_open_dir-Inv path h =
      let i = available_loop E s.files max_files 0 0 in
      record {
        files_ready = λ j. ground (arith, inv.files_ready j, inv.files_ready i);
        direct_fds = λ j. ground (arith, inv.direct_fds j);
      }

module _ (E : Env) {s : State E} (inv : Inv E s) where
  close_manager-Inv :
      (i : ℕ) {r : Reply E} {s' : State E} → close_manager E i s ≡ some (r, s') → Inv E s'
  unfolding close_manager
  close_manager-Inv i h = record {
    files_ready = λ j. ground (arith, inv.files_ready j);
    direct_fds = λ j. ground (arith, inv.direct_fds j);
  }

  close_direct-Inv :
      (i : ℕ) {r : Reply E} {s' : State E} → close_direct E i s ≡ some (r, s') → Inv E s'
  unfolding close_direct close_direct_file free_file_descriptor is_file_descriptor_valid
  close_direct-Inv i h = record {
    files_ready = λ j. ground (arith, inv.files_ready j, inv.files_ready (slot (s.direct i).fd));
    direct_fds = λ j. ground (arith, inv.direct_fds j);
  }

  pub req_close-Inv :
      (fd : ℤ) {r : Reply E} {s' : State E} → req_close E fd s ≡ some (r, s') → Inv E s'
  unfolding req_close
  req_close-Inv fd h = grind (
    arith,
    close_manager-Inv (slot fd - mgr_handle_base),
    close_direct-Inv (slot fd - direct_handle_base),
    close_replaced_file-Inv E inv fd,
  )

-- A search for a free slot stays in the table.
pub available_loop-lt :
    (E : Env) (fs : Files E) (rounds i m : ℕ)
    → i + rounds ≤ max_files
    → m < max_files
    → available_loop E fs rounds i m < max_files
unfolding available_loop better_slot
available_loop-lt E fs zero i m hi hm = hm
available_loop-lt E fs (suc rounds) i m hi hm =
    available_loop-lt E fs rounds (i + 1) (better_slot E fs i m) (omega arith) (ground arith)
