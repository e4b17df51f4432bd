-- ===== src/EmuFs/Table.antt =====
-- ios/IOS/EmuFS.cpp, the file descriptors: the validity tests, the search for a slot, and the
-- functions that take, free and close one.
use saoirse.Prelude.{
  ℕ, zero, suc, ◌+◌, Bool, true, false, ◌&&◌, not, Option, none, some, List, ltb, if◌then◌else◌, ℤ,
  pos, negsuc, str_eq, take,
}
use saoirse.EmuFs.IsfsError
use saoirse.EmuFs.Env.{Env, is_ok}
use saoirse.EmuFs.Types.{
  ProxyFile, Object, State, blank, fil, dir, update, max_files, to_isfs_error,
}

-- `sFileArray[fd]` for a descriptor that the code has tested
abbrev pub slot : ℤ → ℕ
slot (pos i) = i
slot (negsuc _) = 0

module _ (E : Env) where
  open E use {World, Fil, Dir, f_close}

  abbrev pub Files : Type 0
  Files = ℕ → ProxyFile E

  -- `IsFileDescriptorValid`
  unfoldable pub is_file_descriptor_valid : Files → ℤ → Bool
  is_file_descriptor_valid fs (negsuc _) = false
  is_file_descriptor_valid fs (pos i) =
      if ltb i max_files then (fs i).in_use && not (fs i).is_dir else false

  -- `IsDirDescValid`
  unfoldable pub is_dir_desc_valid : Files → ℤ → Bool
  is_dir_desc_valid fs (negsuc _) = false
  is_dir_desc_valid fs (pos i) = if ltb i max_files then (fs i).in_use && (fs i).is_dir else false

  -- the member `fil` of the union, where it was stored last
  abbrev pub get_fil : Object E → Option Fil
  get_fil (fil f) = some f
  get_fil (dir d) = none
  get_fil blank = none

  abbrev pub get_dir : Object E → Option Dir
  get_dir (fil f) = none
  get_dir (dir d) = some d
  get_dir blank = none

  -- The two tests by which a round of a search for a slot replaces its candidate.
  unfoldable pub better_slot : Files → ℕ → ℕ → ℕ
  better_slot fs i match =
      let m = if not (fs i).in_use && (fs match).in_use then i else match in
      if not (fs i).fil_opened && (fs m).fil_opened then i else m

  -- How the loop of `RegisterFileDescriptor` ends: at a slot that holds the path and is locked, at
  -- one that is reused, or past the last slot with a candidate.
  pub data Search : Type 0 where
    is_locked : Search
    reuse : ℕ → Search
    candidate : ℕ → Search

  -- That loop, with the count of rounds left.
  unfoldable pub register_loop : Files → List ℕ → ℕ → ℕ → ℕ → Search
  register_loop fs path zero i match = candidate match
  register_loop fs path (suc rounds) i match =
      let rest = register_loop fs path rounds (i + 1) (better_slot fs i match) in
      if (fs i).fil_opened && (fs i).ipc_file && str_eq (fs i).path path
      then (if (fs i).in_use then is_locked else reuse i)
      else rest

  -- Its last part: the candidate's old file is closed, and the slot is taken for the path.
  unfoldable pub take_slot : List ℕ → ℕ → State E → Option (ℤ × State E)
  take_slot path match s =
      let f = s.files match in
      let taken : ProxyFile E = record f {
        fil_opened = false;
        in_use = true;
        ipc_file = true;
        path = take 64 path;
      } in
      if f.in_use
      then some (IsfsError.max_open, s)
      else if f.fil_opened
      then elim (get_fil f.object) [
        | none ↦ none
        | some o ↦
            let (fret, o', w) = f_close o s.world in
            some (
              pos match,
              record s {
                files = update s.files match (record taken { object = fil o' });
                world = w;
              },
            )
      ]
      else some (pos match, record s { files = update s.files match taken })

  -- `RegisterFileDescriptor`
  unfoldable pub register_file_descriptor : List ℕ → State E → Option (ℤ × State E)
  register_file_descriptor path s = elim (register_loop s.files path max_files 0 0) [
    | is_locked ↦ some (IsfsError.locked, s)
    | reuse i ↦
        some (pos i, record s { files = update s.files i (record (s.files i) { in_use = true }) })
    | candidate match ↦ take_slot path match s
  ]

  -- `FreeFileDescriptor`
  unfoldable pub free_file_descriptor : ℤ → State E → State E
  free_file_descriptor fd s =
      if is_file_descriptor_valid s.files fd
      then record s {
        files = update s.files (slot fd) (record (s.files (slot fd)) { in_use = false });
      }
      else s

  -- the loop of `FindOpenFileDescriptor`
  unfoldable pub find_open_loop : Files → List ℕ → ℕ → ℕ → ℕ
  find_open_loop fs path zero i = max_files
  find_open_loop fs path (suc rounds) i =
      let rest = find_open_loop fs path rounds (i + 1) in
      if (fs i).fil_opened && str_eq path (fs i).path then i else rest

  -- `FindOpenFileDescriptor`
  unfoldable pub find_open_file_descriptor : Files → List ℕ → ℕ
  find_open_file_descriptor fs path = find_open_loop fs path max_files 0

  -- the loop of `FindAvailableFileDescriptor`
  unfoldable pub available_loop : Files → ℕ → ℕ → ℕ → ℕ
  available_loop fs zero i match = match
  available_loop fs (suc rounds) i match = available_loop fs rounds (i + 1) (better_slot fs i match)

  -- `FindAvailableFileDescriptor`
  unfoldable pub find_available_file_descriptor : Files → ℤ
  find_available_file_descriptor fs =
      let match = available_loop fs max_files 0 0 in
      if (fs match).in_use then IsfsError.max_open else pos match

  -- `TryCloseFileDescriptor`, called with the index of a slot
  unfoldable pub try_close_file_descriptor : ℕ → State E → Option (ℤ × State E)
  try_close_file_descriptor i s =
      let f = s.files i in
      if f.in_use
      then some (IsfsError.locked, s)
      else if not f.fil_opened
      then some (IsfsError.ok, s)
      else elim (get_fil f.object) [
        | none ↦ none
        | some o ↦
            let (fret, o', w) = f_close o s.world in
            let opened : Bool = not (is_ok fret) in
            some (
              to_isfs_error fret,
              record s {
                files = update s.files i (record f { object = fil o'; fil_opened = opened });
                world = w;
              },
            )
      ]
