-- ===== src/EmuFs/Reopen.antt =====
-- ios/IOS/EmuFS.cpp, what the registration of a path finds, and what that means for opening a path
-- again.
use saoirse.Prelude.{
  ℕ, zero, suc, ◌+◌, ◌≤◌, ◌<◌, ◌≡◌, Bool, true, false, ◌&&◌, Option, none, some, List, arith, ℤ,
  pos, [], ◌∷◌, ap, ◌==◌, ltb→lt, negsuc, str_eq, refl, Bool-cases, inl, inr, length, take,
  str_eq_refl,
}
use native.Mathlib.Decide.{dec_lt}
use native.Mathlib.Nat.{le_refl}
use mathlib.Core.Bool.{and-eq-true_iff}
use saoirse.EmuFs.IsfsError
use saoirse.EmuFs.Errors.{is_neg-to_isfs_error}
use saoirse.EmuFs.Env.{Env}
use saoirse.EmuFs.Types.{State, Reply, max_files, efs_max_path_len}
use saoirse.EmuFs.Table.{
  Files, Search, is_locked, reuse, candidate, better_slot, register_loop, register_file_descriptor,
  take_slot,
}
use saoirse.EmuFs.Paths.{starts_with_char, is_path_valid, get_redirected_path}
use saoirse.EmuFs.Requests.{say, reopen_file, open_registered, req_proxy_open}
use saoirse.EmuFs.Inv.Open.{IsFound, register_loop-IsFound}

module _ (E : Env) (fs : Files E) (path : List ℕ) where
  -- Slot `i` holds an open file under the path.
  abbrev pub holds : ℕ → Bool
  holds i = (fs i).fil_opened && (fs i).ipc_file && str_eq (fs i).path path

  -- What the loop finds says which of the slots from `n` on hold the path: the first one that does
  -- is locked or reused, and with a candidate there is none.
  abbrev pub Finds : ℕ → Search E → Type 0
  Finds n is_locked =
      (k : ℕ) × (n ≤ k)
      × (k < max_files)
      × (holds k ≡ true)
      × ((fs k).in_use ≡ true)
      × ((j : ℕ) → n ≤ j → j < k → holds j ≡ false)
  Finds n (reuse k) =
      (n ≤ k)
      × (k < max_files)
      × (holds k ≡ true)
      × ((fs k).in_use ≡ false)
      × ((j : ℕ) → n ≤ j → j < k → holds j ≡ false)
  Finds n (candidate m) = (j : ℕ) → n ≤ j → j < max_files → holds j ≡ false

  weaken-Finds : (n : ℕ) (f : Search E) → holds n ≡ false → Finds (n + 1) f → Finds n f
  weaken-Finds n is_locked h (k, lo, hi, hk, u, before) =
      (k, omega arith, hi, hk, u, λ j hj lt. ground (arith, h, before j))
  weaken-Finds n (reuse k) h (lo, hi, hk, u, before) =
      (omega arith, hi, hk, u, λ j hj lt. ground (arith, h, before j))
  weaken-Finds n (candidate m) h none_of = λ j hj lt. ground (arith, h, none_of j)

  pub register_loop-Finds :
      (rounds n m : ℕ) → n + rounds ≡ max_files → Finds n (register_loop E fs path rounds n m)
  unfolding register_loop
  register_loop-Finds zero n m e = λ j hj lt. absurd (omega arith)
  register_loop-Finds (suc rounds) n m e = elim (Bool-cases (holds n)) [
    | inl h ↦ rw h (elim (Bool-cases (fs n).in_use) [
      | inl u ↦ rw u (n, le_refl n, omega arith, h, u, λ j hj lt. absurd (omega arith))
      | inr u ↦ rw u (le_refl n, omega arith, h, u, λ j hj lt. absurd (omega arith))
    ])
    | inr h ↦ rw h (
        weaken-Finds n (register_loop E fs path rounds (n + 1) (better_slot E fs n m)) h
          (register_loop-Finds rounds (n + 1) (better_slot E fs n m) (omega arith)))
  ]

  -- A first slot that holds the path and is in use locks it.
  pub register_loop-locked :
      (k : ℕ) (rounds n m : ℕ)
      → n + rounds ≡ max_files
      → n ≤ k
      → k < max_files
      → holds k ≡ true
      → (fs k).in_use ≡ true
      → ((j : ℕ) → n ≤ j → j < k → holds j ≡ false)
      → register_loop E fs path rounds n m ≡ is_locked
  unfolding register_loop
  register_loop-locked k zero n m e lo hi hk u before = absurd (omega arith)
  register_loop-locked k (suc rounds) n m e lo hi hk u before = elim (dec_lt n k) [
    | yes p ↦ rw (before n (le_refl n) p) (
        register_loop-locked k rounds (n + 1) (better_slot E fs n m) (omega arith) (omega arith) hi
          hk u (λ j hj. before j (omega arith)))
    | no p ↦ let same : n ≡ k = omega arith in rw (same, hk, u)
  ]

pub take_short {ℓ} : {A : Type ℓ} (n : ℕ) (xs : List A) → length (take n xs) < n → take n xs ≡ xs
take_short zero xs h = absurd (omega arith)
take_short (suc n) [] h = refl
take_short (suc n) (x ∷ xs) h = ap (λ ys. x ∷ ys) (take_short n xs (omega arith))

pub is_path_valid-take : (path : List ℕ) → is_path_valid path ≡ true → take 64 path ≡ path
unfolding is_path_valid
is_path_valid-take path h =
    take_short 64 path (ltb→lt _ _ ((and-eq-true_iff (starts_with_char b'/' path) _).0 h).1)

module _ (E : Env) where
  -- Only slot `i` differs.
  abbrev pub SameBut : ℕ → State E → State E → Type 0
  SameBut i s s' = (j : ℕ) → (i == j) ≡ false → s'.files j ≡ s.files j

  open_registered-opens :
      (efs_path : List ℕ) (mode i : ℕ) (s s' : State E) (r : Reply E) (k : ℕ)
      → open_registered E efs_path mode i s ≡ some (r, s')
      → r.ret ≡ pos k
      → (k ≡ i)
        × ((s'.files i).in_use ≡ (s.files i).in_use)
        × ((s'.files i).fil_opened ≡ true)
        × ((s'.files i).ipc_file ≡ (s.files i).ipc_file)
        × ((s'.files i).path ≡ (s.files i).path)
        × SameBut i s s'
  unfolding open_registered reopen_file
  open_registered-opens efs_path mode i s s' r k h e = (
    grind (arith, is_neg-to_isfs_error),
    grind (arith, is_neg-to_isfs_error),
    grind (arith, is_neg-to_isfs_error),
    grind (arith, is_neg-to_isfs_error),
    grind (arith, is_neg-to_isfs_error),
    λ j ne. grind (arith, is_neg-to_isfs_error),
  )

module _ (E : Env) (path : List ℕ) where
  -- After a registration slot `i` is in use under the path, and no slot before it holds the path.
  pub record IsTaken (i : ℕ) (s : State E) : Type 0 where
    pub in_table : i < max_files
    pub in_use : (s.files i).in_use ≡ true
    pub ipc_file : (s.files i).ipc_file ≡ true
    pub same_path : str_eq (s.files i).path path ≡ true
    pub before : (j : ℕ) → j < i → holds E s.files path j ≡ false

  take_slot-IsTaken :
      (m : ℕ) (s : State E) (i : ℕ) (s' : State E)
      → m < max_files
      → take 64 path ≡ path
      → ((j : ℕ) → j < max_files → holds E s.files path j ≡ false)
      → take_slot E path m s ≡ some (pos i, s')
      → IsTaken i s'
  unfolding take_slot
  take_slot-IsTaken m s i s' hm short none_of h = record {
    in_table = ground arith;
    in_use = ground arith;
    ipc_file = ground arith;
    same_path = ground (arith, str_eq_refl path, short);
    before = λ j hj. ground (arith, none_of j);
  }

  register-IsTaken_at :
      (s : State E) (f : Search E) (i : ℕ) (s' : State E)
      → register_loop E s.files path max_files 0 0 ≡ f
      → IsFound E path s.files f
      → Finds E s.files path 0 f
      → take 64 path ≡ path
      → register_file_descriptor E path s ≡ some (pos i, s')
      → IsTaken i s'
  unfolding register_file_descriptor
  register-IsTaken_at s is_locked i s' e g f short h = absurd (ground arith)
  register-IsTaken_at s (reuse k) i s' e g f short h = record {
    in_table = ground (arith, f);
    in_use = ground arith;
    ipc_file = ground (arith, f.2);
    same_path = ground (arith, f.2);
    before = λ j hj. ground (arith, f.4 j);
  }
  register-IsTaken_at s (candidate m) i s' e g f short h =
      take_slot-IsTaken m s i s' g short (λ j. f j (omega arith))
        (rw (e, register_file_descriptor) at h)

  register-IsTaken :
      (s : State E) (i : ℕ) (s' : State E)
      → take 64 path ≡ path
      → register_file_descriptor E path s ≡ some (pos i, s')
      → IsTaken i s'
  register-IsTaken s i s' short h =
      register-IsTaken_at s _ i s' refl
        (register_loop-IsFound E path s.files max_files 0 0 (omega arith) (omega arith))
        (register_loop-Finds E s.files path max_files 0 0 (omega arith)) short h

  -- A file that was opened is the first that holds its path.
  locks :
      (i : ℕ) (s s' : State E)
      → IsTaken i s
      → ((s'.files i).in_use ≡ (s.files i).in_use)
        × ((s'.files i).fil_opened ≡ true)
        × ((s'.files i).ipc_file ≡ (s.files i).ipc_file)
        × ((s'.files i).path ≡ (s.files i).path)
        × SameBut E i s s'
      → register_file_descriptor E path s' ≡ some (IsfsError.locked, s')
  unfolding register_file_descriptor
  locks i s s' t o =
      let first =
        register_loop-locked E s'.files path i max_files 0 0 (omega arith) (omega arith) t.in_table
          (ground (arith, t, o.0, o.1, o.2, o.3)) (ground (arith, t, o.0))
          (λ j lo hi. ground (arith, t.before j, o.4 j)) in
      rw (first, register_file_descriptor)

  get_redirected_path-valid :
      (n : ℕ) (p : List ℕ) → get_redirected_path path n ≡ some p → is_path_valid path ≡ true
  unfolding get_redirected_path
  get_redirected_path-valid n p h = ground arith

  locked_after :
      (mode : ℕ) (s s' : State E) (r : Reply E) (k : ℕ) (reg : Option (ℤ × State E))
      (to : Option (List ℕ))
      → register_file_descriptor E path s ≡ reg
      → get_redirected_path path efs_max_path_len ≡ to
      → req_proxy_open E path mode s ≡ some (r, s')
      → r.ret ≡ pos k
      → register_file_descriptor E path s' ≡ some (IsfsError.locked, s')
  unfolding req_proxy_open
  locked_after mode s s' r k reg none er et h e = absurd (ground arith)
  locked_after mode s s' r k none (some p) er et h e = absurd (ground arith)
  locked_after mode s s' r k (some (negsuc n, s1)) (some p) er et h e = absurd (ground arith)
  locked_after mode s s' r k (some (pos i, s1)) (some p) er et h e =
      let short = is_path_valid-take path (get_redirected_path-valid efs_max_path_len p et) in
      let o = open_registered-opens E p mode i s1 s' r k (ground arith) e in
      locks i s1 s' (register-IsTaken s i s1 short er) (o.1, o.2, o.3, o.4, o.5)

  -- A path that `ReqProxyOpen` opened is locked: opening it again, before any other request and
  -- with any valid mode, gives Locked and changes nothing.
  pub open_twice_locked :
      (mode mode' : ℕ) (s s' : State E) (r : Reply E) (k : ℕ)
      → req_proxy_open E path mode s ≡ some (r, s')
      → r.ret ≡ pos k
      → mode' ≤ 3
      → req_proxy_open E path mode' s' ≡ say E IsfsError.locked s'
  unfolding req_proxy_open
  open_twice_locked mode mode' s s' r k h e hm = ground (
    arith,
    locked_after mode s s' r k (register_file_descriptor E path s)
        (get_redirected_path path efs_max_path_len) refl refl h e,
  )
