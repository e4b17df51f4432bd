-- ===== src/EmuFs/Search.antt =====
-- ios/IOS/EmuFS.cpp, the two searches for a slot: which one they choose, and that a path which is
-- open is not opened twice.
use saoirse.Prelude.{ℕ, zero, suc, ◌+◌, ◌≤◌, ◌<◌, ◌≡◌, ◌↔◌, true, false, arith, pos}
use native.Mathlib.Decide.{dec_lt}
use saoirse.EmuFs.IsfsError
use saoirse.EmuFs.Env.{Env}
use saoirse.EmuFs.Types.{max_files}
use saoirse.EmuFs.Table.{Files, better_slot, available_loop, find_available_file_descriptor}

module _ (E : Env) (fs : Files E) where
  -- Every slot in use has an open file: no directory is open.
  abbrev pub NoDirs : Type 0
  NoDirs = (j : ℕ) → (fs j).in_use ≡ true → (fs j).fil_opened ≡ true

  -- The candidate among the first `n` slots: free if one of them is, and without an open file if
  -- one of the free ones is.
  pub record IsBest (n m : ℕ) : Type 0 where
    pub in_table : m < max_files
    pub free : (j : ℕ) → j < n → (fs j).in_use ≡ false → (fs m).in_use ≡ false
    pub unopened :
        (j : ℕ)
        → j < n
        → (fs j).in_use ≡ false
        → (fs j).fil_opened ≡ false
        → (fs m).fil_opened ≡ false

  better_slot-IsBest :
      (n m : ℕ) → NoDirs → n < max_files → IsBest n m → IsBest (n + 1) (better_slot E fs n m)
  unfolding better_slot
  better_slot-IsBest n m all hn b = record {
    in_table = ground (arith, b.in_table);
    free = λ j hj u. ground (arith, b.free j, all n, all m);
    unopened = λ j hj u o. ground (arith, b.free j, b.unopened j, all n, all m);
  }

  available_loop-IsBest :
      (rounds n m : ℕ)
      → NoDirs
      → n + rounds ≡ max_files
      → IsBest n m
      → IsBest max_files (available_loop E fs rounds n m)
  unfolding available_loop
  available_loop-IsBest zero n m all e b = record {
    in_table = b.in_table;
    free = λ j hj. b.free j (omega arith);
    unopened = λ j hj. b.unopened j (omega arith);
  }
  available_loop-IsBest (suc rounds) n m all e b =
      available_loop-IsBest rounds (n + 1) (better_slot E fs n m) all (omega arith)
        (better_slot-IsBest n m all (omega arith) b)

  -- While no directory is open, `FindAvailableFileDescriptor` reports MaxOpen exactly when all slots
  -- are in use; otherwise it returns a free slot of the table, and one that keeps an open file only
  -- if every free slot does.
  pub find_available_exact :
      NoDirs
      → let fd = find_available_file_descriptor E fs in
        ((fd ≡ IsfsError.max_open) ↔ ((j : ℕ) → j < max_files → (fs j).in_use ≡ true))
        × ((i : ℕ)
            → fd ≡ pos i
            → (i < max_files)
              × ((fs i).in_use ≡ false)
              × ((fs i).fil_opened ≡ true
                  → (j : ℕ) → j < max_files
                  → (fs j).in_use ≡ false
                  → (fs j).fil_opened ≡ true))
  unfolding find_available_file_descriptor
  find_available_exact all =
      let m = available_loop E fs max_files 0 0 in
      let b = available_loop-IsBest max_files 0 0 all (omega arith) (record {
        in_table = omega arith;
        free = λ j hj. absurd (omega arith);
        unopened = λ j hj. absurd (omega arith);
      }) in
      (
        (λ e j hj. ground (arith, b.free j), λ used. ground (arith, used m, b.in_table)),
        λ i e. (
          ground (arith, b.in_table),
          ground arith,
          λ o j hj u. ground (arith, b.free j, b.unopened j),
        ),
      )

  -- Once the search has passed an open directory with only used slots behind it, its candidate stays
  -- a slot in use.
  stuck_loop :
      (d : ℕ)
      → ((j : ℕ) → j < max_files → (fs j).in_use ≡ false → ((fs j).fil_opened ≡ true) × (j < d))
      → (rounds n m : ℕ) → n + rounds ≡ max_files
      → d < n
      → (fs m).in_use ≡ true
      → (fs m).fil_opened ≡ false
      → (fs (available_loop E fs rounds n m)).in_use ≡ true
  unfolding available_loop better_slot
  stuck_loop d free zero n m e hd u o = u
  stuck_loop d free (suc rounds) n m e hd u o =
      stuck_loop d free rounds (n + 1) (better_slot E fs n m) (omega arith) (omega arith)
        (ground (arith, free n)) (ground (arith, free n))

  passed_dir :
      (d : ℕ)
      → (fs d).in_use ≡ true
      → (fs d).fil_opened ≡ false
      → d < max_files
      → ((j : ℕ) → j < max_files → (fs j).in_use ≡ false → ((fs j).fil_opened ≡ true) × (j < d))
      → (rounds n m : ℕ) → n + rounds ≡ max_files
      → n ≤ d
      → m < max_files
      → (fs (available_loop E fs rounds n m)).in_use ≡ true
  unfolding available_loop
  passed_dir d u o hd free zero n m e hn hm = absurd (omega arith)
  passed_dir d u o hd free (suc rounds) n m e hn hm = elim (dec_lt n d) [
    | yes p ↦
        passed_dir d u o hd free rounds (n + 1) (better_slot E fs n m) (omega arith) (omega arith)
          (unfold better_slot in ground arith)
    | no p ↦
        let same : n ≡ d = omega arith in
        stuck_loop d free rounds (n + 1) (better_slot E fs n m) (omega arith) (omega arith)
          (unfold better_slot in rw same (ground (arith, free m)))
          (unfold better_slot in rw same (ground (arith, free m)))
  ]

  -- With a directory open in a slot `d`, with every free slot before it and with an open file in
  -- each free slot, the search reports MaxOpen, whether or not there is a free slot.
  pub find_available_misses_free :
      (d : ℕ)
      → d < max_files
      → (fs d).in_use ≡ true
      → (fs d).fil_opened ≡ false
      → ((j : ℕ) → j < max_files → (fs j).in_use ≡ false → ((fs j).fil_opened ≡ true) × (j < d))
      → find_available_file_descriptor E fs ≡ IsfsError.max_open
  unfolding find_available_file_descriptor
  find_available_misses_free d hd u o free =
      rw (passed_dir d u o hd free max_files 0 0 (omega arith) (omega arith) (omega arith))
