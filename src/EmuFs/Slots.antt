-- ===== src/EmuFs/Slots.antt =====
-- ios/IOS/EmuFS.cpp, what becomes of a slot: a directory that is closed, a file that is created, and
-- a file that is deleted while it is open.
use saoirse.Prelude.{
  ◌∙◌, ℕ, zero, suc, ◌+◌, ◌≤◌, ◌<◌, ◌≡◌, true, false, ◌&&◌, some, List, arith, pos, str_eq, refl,
}
use native.Mathlib.Decide.{dec_lt}
use native.Mathlib.Nat.{le_refl}
use saoirse.EmuFs.IosError
use saoirse.EmuFs.IsfsError
use saoirse.EmuFs.Env.{Env, close, no_output, fa_read, fa_write, fa_create_new, is_ok}
use saoirse.EmuFs.Types.{State, Reply, ProxyFile, update, fil, max_files, direct_handle_base}
use saoirse.EmuFs.Table.{
  register_file_descriptor, register_loop, reuse, better_slot, find_open_loop,
  find_open_file_descriptor, find_available_file_descriptor, try_close_file_descriptor, Files,
}
use saoirse.EmuFs.Requests.{say, close_direct}
use saoirse.EmuFs.Ioctl.{create_at, delete_replaced}
use saoirse.EmuFs.Dispatch.{ipc_request}
use saoirse.EmuFs.Inv.{Inv}
use saoirse.EmuFs.Reopen.{holds}
use saoirse.EmuFs.Answers.{close_goes}

module _ (E : Env) where
  -- Closing a direct file that is bound to an open directory answers OK and releases the direct
  -- file, and leaves every slot as it was: that of the directory stays in use.
  pub close_dir_keeps_slot :
      (s : State E) (i k : ℕ)
      → Inv E s
      → i < max_files
      → k < max_files
      → (s.direct i).in_use ≡ true
      → (s.direct i).fd ≡ pos k
      → (s.files k).is_dir ≡ true
      → (r : Reply E) × (s' : State E) × (ipc_request E (pos (direct_handle_base + i)) close s
          ≡ some (r, s'))
        × (r.ret ≡ IosError.ok)
        × ((s'.direct i).in_use ≡ false)
        × (s'.files ≡ s.files)
        × ((s'.files k).in_use ≡ true)
  unfolding close_direct
  close_dir_keeps_slot s i k inv hi hk u b d = (
    record { ret = IosError.ok; out = no_output },
    record s { direct = update s.direct i (record { in_use = false; fd = IsfsError.not_found }) },
    close_goes E s i hi ∙ ground arith,
    refl,
    ground arith,
    refl,
    ground (arith, inv.files_ready k),
  )

  register_loop-reuses :
      (fs : Files E) (path : List ℕ) (k : ℕ) (rounds n m : ℕ)
      → n + rounds ≡ max_files
      → n ≤ k
      → k < max_files
      → holds E fs path k ≡ true
      → (fs k).in_use ≡ false
      → ((j : ℕ) → n ≤ j → j < k → holds E fs path j ≡ false)
      → register_loop E fs path rounds n m ≡ reuse k
  unfolding register_loop
  register_loop-reuses fs path k zero n m e lo hi hk u before = absurd (omega arith)
  register_loop-reuses fs path k (suc rounds) n m e lo hi hk u before = elim (dec_lt n k) [
    | yes p ↦ rw (before n (le_refl n) p) (
        register_loop-reuses fs path k rounds (n + 1) (better_slot E fs n m) (omega arith)
          (omega arith) hi hk u (λ j hj. before j (omega arith)))
    | no p ↦ let same : n ≡ k = omega arith in rw (same, hk, u)
  ]

  -- CreateFile keeps the new file open in a free slot `k` and leaves that slot's path: if it is the
  -- path `old` of a file that was open there, and no slot before it holds that path, then the next
  -- registration of `old` gives slot `k`, with the new file in it.
  pub create_file_stale_path :
      (s : State E) (efs_path old : List ℕ) (k : ℕ)
      → k < max_files
      → find_available_file_descriptor E s.files ≡ pos k
      → (s.files k).in_use ≡ false
      → (s.files k).ipc_file ≡ true
      → str_eq (s.files k).path old ≡ true
      → ((j : ℕ) → j < k → holds E s.files old j ≡ false)
      → let (fret, o, w) = E.f_open efs_path (fa_create_new + fa_read + fa_write) s.world in
        let (_, o', w') = E.f_sync o w in
        is_ok fret ≡ true
        → (s1 : State E) × (s2 : State E) × (create_at E efs_path s ≡ say E IsfsError.ok s1)
          × (register_file_descriptor E old s1 ≡ some (pos k, s2))
          × ((s2.files k).object ≡ fil o')
          × ((s2.files k).fil_opened ≡ true)
  unfolding create_at register_file_descriptor
  create_file_stale_path s efs_path old k hk free u ipc same before opened =
      let (fret, o, w) = E.f_open efs_path (fa_create_new + fa_read + fa_write) s.world in
      let (_, o', w') = E.f_sync o w in
      let f : ProxyFile E = record (s.files k) { fil_opened = true; object = fil o' } in
      let s1 : State E = record s { files = update s.files k f; world = w' } in
      let g : ProxyFile E = record f { in_use = true } in
      let found =
        register_loop-reuses s1.files old k max_files 0 0 (omega arith) (omega arith) hk
          (ground arith) (ground arith) (λ j lo hi. ground (arith, before j)) in
      (
        s1,
        record s1 { files = update s1.files k g },
        rw (opened, free) refl,
        rw (found, register_file_descriptor) (ground arith),
        ground arith,
        ground arith,
      )

  find_open-first :
      (fs : Files E) (path : List ℕ) (k rounds n : ℕ)
      → n + rounds ≡ max_files
      → n ≤ k
      → k < max_files
      → (fs k).fil_opened && str_eq path (fs k).path ≡ true
      → ((j : ℕ) → n ≤ j → j < k → (fs j).fil_opened && str_eq path (fs j).path ≡ false)
      → find_open_loop E fs path rounds n ≡ k
  unfolding find_open_loop
  find_open-first fs path k zero n e lo hi hk before = absurd (omega arith)
  find_open-first fs path k (suc rounds) n e lo hi hk before = elim (dec_lt n k) [
    | yes p ↦ rw (before n (le_refl n) p) (
        find_open-first fs path k rounds (n + 1) (omega arith) (omega arith) hi hk
          (λ j hj. before j (omega arith)))
    | no p ↦ let same : n ≡ k = omega arith in rw (same, hk)
  ]

  -- Deleting a replaced path answers Locked and changes nothing while the first slot with an open
  -- file under that path is in use.
  pub delete_open_locked :
      (s : State E) (path : List ℕ) (k : ℕ)
      → k < max_files
      → (s.files k).fil_opened ≡ true
      → str_eq path (s.files k).path ≡ true
      → (s.files k).in_use ≡ true
      → ((j : ℕ) → j < k → (s.files j).fil_opened && str_eq path (s.files j).path ≡ false)
      → delete_replaced E path s ≡ say E IsfsError.locked s
  unfolding delete_replaced find_open_file_descriptor try_close_file_descriptor
  delete_open_locked s path k hk o same u before = ground (
    arith,
    find_open-first s.files path k max_files 0 (omega arith) (omega arith) hk (ground arith)
        (λ j lo. before j),
  )
