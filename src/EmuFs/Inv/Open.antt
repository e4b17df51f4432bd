-- ===== src/EmuFs/Inv/Open.antt =====
-- Registration finds or takes a slot of the table, and opening a redirected file keeps the
-- invariant.
use saoirse.Prelude.{
  ℕ, zero, suc, ◌+◌, ◌≤◌, ◌<◌, ◌≡◌, ◌≢◌, true, false, Option, none, some, List, arith, ℤ, pos,
  negsuc, str_eq, ◌==◌, refl,
}
use saoirse.EmuFs.Env.{Env}
use saoirse.EmuFs.Types.{State, Reply, max_files}
use saoirse.EmuFs.Table.{
  Files, Search, is_locked, reuse, candidate, is_file_descriptor_valid, free_file_descriptor,
  better_slot, register_loop, take_slot, register_file_descriptor,
}
use saoirse.EmuFs.Requests.{reopen_file, open_registered, req_proxy_open}
use saoirse.EmuFs.Inv.{Inv, IsReady, IsSound, is_direct_fd}

module _ (E : Env) (path : List ℕ) where
  -- What the loop of `RegisterFileDescriptor` finds is a slot of the table; a slot to reuse holds
  -- the path in an open file, and is not in use.
  abbrev pub IsFound : Files E → Search E → Type 0
  IsFound fs is_locked = Unit
  IsFound fs (reuse i) =
      (i < max_files)
      × ((fs i).in_use ≡ false)
      × ((fs i).fil_opened ≡ true)
      × (str_eq (fs i).path path ≡ true)
  IsFound fs (candidate m) = m < max_files

  pub register_loop-IsFound :
      (fs : Files E) (rounds i m : ℕ)
      → i + rounds ≤ max_files
      → m < max_files
      → IsFound fs (register_loop E fs path rounds i m)
  unfolding register_loop better_slot
  register_loop-IsFound fs zero i m hi hm = hm
  register_loop-IsFound fs (suc rounds) i m hi hm = ground (
    arith,
    register_loop-IsFound fs rounds (i + 1) (better_slot E fs i m) (omega arith) (ground arith),
  )

module _ (E : Env) where
  -- The state after slot `i` was registered for a path: the slot is in use, but its file may not be
  -- open yet.
  pub record IsRegistered (i : ℕ) (s : State E) : Type 0 where
    pub in_table : i < max_files
    pub others : (j : ℕ) → (i == j) ≡ false → IsReady E (s.files j)
    pub sound : IsSound E (s.files i)
    pub in_use : (s.files i).in_use ≡ true
    pub no_dir : (s.files i).is_dir ≡ false
    pub direct_fds : (j : ℕ) → is_direct_fd (s.direct j).fd ≡ true

module _ (E : Env) {s : State E} (inv : Inv E s) (path : List ℕ) where
  take_slot-IsRegistered :
      (i k : ℕ) {s' : State E}
      → i < max_files
      → take_slot E path i s ≡ some (pos k, s')
      → IsRegistered E k s'
  unfolding take_slot
  take_slot-IsRegistered i k hi h = record {
    in_table = ground (arith);
    others = λ j ne. ground (arith, inv.files_ready j);
    sound = ground (arith, inv.files_ready i);
    in_use = ground (arith, inv.files_ready i);
    no_dir = ground (arith, inv.files_ready i);
    direct_fds = λ j. ground (arith, inv.direct_fds j);
  }

  take_slot-error : (i n : ℕ) {s' : State E} → take_slot E path i s ≡ some (negsuc n, s') → s' ≡ s
  unfolding take_slot
  take_slot-error i n h = ground arith

  take_slot-ne-none : (i : ℕ) → take_slot E path i s ≢ none
  unfolding take_slot
  take_slot-ne-none i h = ground (arith, inv.files_ready i)

  -- The three facts for a whole registration, by what the loop finds.
  register-IsRegistered_at :
      (f : Search E)
      → register_loop E s.files path max_files 0 0 ≡ f
      → IsFound E path s.files f
      → (k : ℕ) {s' : State E} → register_file_descriptor E path s ≡ some (pos k, s')
      → IsRegistered E k s'
  unfolding register_file_descriptor
  register-IsRegistered_at is_locked e g k h = absurd (ground arith)
  register-IsRegistered_at (reuse i) e g k h = record {
    in_table = ground (arith);
    others = λ j ne. ground (arith, inv.files_ready j);
    sound = ground (arith, inv.files_ready i);
    in_use = ground (arith, inv.files_ready i);
    no_dir = ground (arith, inv.files_ready i);
    direct_fds = λ j. ground (arith, inv.direct_fds j);
  }
  register-IsRegistered_at (candidate i) e g k h =
      take_slot-IsRegistered i k g (rw (e, register_file_descriptor) at h)

  register-IsRegistered :
      (k : ℕ) {s' : State E}
      → register_file_descriptor E path s ≡ some (pos k, s')
      → IsRegistered E k s'
  register-IsRegistered k h =
      register-IsRegistered_at _ refl
        (register_loop-IsFound E path s.files max_files 0 0 (omega arith) (omega arith)) k h

  register-error :
      (n : ℕ) {s' : State E} → register_file_descriptor E path s ≡ some (negsuc n, s') → s' ≡ s
  unfolding register_file_descriptor
  register-error n {s'} h =
      elim (register_loop E s.files path max_files 0 0)
          as (λ f. register_loop E s.files path max_files 0 0 ≡ f → s' ≡ s) [
            | is_locked ↦ λ e. ground arith
            | reuse i ↦ λ e. ground arith
            | candidate i ↦ λ e. take_slot-error i n (rw (e, register_file_descriptor) at h)
          ]
        refl

module _ (E : Env) {s : State E} (i : ℕ) (reg : IsRegistered E i s) where
  open_registered-Inv :
      (efs_path : List ℕ) (mode : ℕ) {r : Reply E} {s' : State E}
      → open_registered E efs_path mode i s ≡ some (r, s')
      → Inv E s'
  unfolding open_registered reopen_file free_file_descriptor is_file_descriptor_valid
  open_registered-Inv efs_path mode h = record {
    files_ready = λ j. ground (arith, reg.others j, reg);
    direct_fds = λ j. ground (arith, reg.direct_fds j);
  }

module _ (E : Env) {s : State E} (inv : Inv E s) (path : List ℕ) (mode : ℕ) where
  open_found-Inv :
      (reg : Option (ℤ × State E))
      → register_file_descriptor E path s ≡ reg
      → {r : Reply E} {s' : State E} → req_proxy_open E path mode s ≡ some (r, s')
      → Inv E s'
  unfolding req_proxy_open
  open_found-Inv none e h = record {
    files_ready = λ j. ground (arith, inv.files_ready j);
    direct_fds = λ j. ground (arith, inv.direct_fds j);
  }
  open_found-Inv (some (negsuc n, s1)) e h =
      let same = register-error E inv path n e in
      record {
        files_ready = λ j. ground (arith, same, inv.files_ready j);
        direct_fds = λ j. ground (arith, same, inv.direct_fds j);
      }
  open_found-Inv (some (pos k, s1)) e h =
      grind (arith, inv, open_registered-Inv E k (register-IsRegistered E inv path k e))

  pub req_proxy_open-Inv :
      {r : Reply E} {s' : State E} → req_proxy_open E path mode s ≡ some (r, s') → Inv E s'
  req_proxy_open-Inv h = open_found-Inv (register_file_descriptor E path s) refl h
