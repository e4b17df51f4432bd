-- ===== src/Arch.antt =====
-- channel/Main/Arch.cpp: the reader of the archive of files that the channel carries.
use saoirse.Prelude.{
  ℕ, zero, suc, ◌+◌, ◌-◌, ◌*◌, ◌/◌, ◌%◌, ◌^◌, Bool, true, false, ◌&&◌, ◌||◌, not, Option, none,
  some, List, [], ◌∷◌, ◌++◌, length, ltb, leb, ◌==◌, if◌then◌else◌, codes, str_eq, u32, sub32, ℤ,
  pos, negsuc, take,
}
use saoirse.Prelude.Buffers.{Buffer, bytes_at}
mod Layout
mod Parse
mod Lookup
mod Tests

-- `strchr`, by the bytes that are left of the address space: the address of the byte, 0 where the
-- string ends first. `none` is a read behind the last address.
unfoldable pub strchr : ℕ → Buffer → ℕ → ℕ → Option ℕ
strchr zero m p c = none
strchr (suc n) m p c = elim (m p == c) [
  | true ↦ some p
  | false ↦ elim (m p == 0) [ true ↦ some 0 | false ↦ strchr n m (p + 1) c ]
]

abbrev pub strchr_from : Buffer → ℕ → ℕ → Option ℕ
strchr_from m p c = strchr (2 ^ 32 - p) m p c

-- `isspace` and `isdigit`
abbrev pub is_space : ℕ → Bool
is_space c = c == 32 || (leb 9 c && leb c 13)

abbrev pub is_digit : ℕ → Bool
is_digit c = leb 48 c && leb c 57

-- The digits of `atoi`, after what was read before them.
unfoldable pub digits_from : ℕ → Buffer → ℕ → ℕ → Option ℕ
digits_from zero m p acc = none
digits_from (suc n) m p acc = elim (is_digit (m p)) [
  | true ↦ digits_from n m (p + 1) (acc * 10 + (m p - 48))
  | false ↦ some acc
]

unfoldable pub skip_spaces : ℕ → Buffer → ℕ → Option ℕ
skip_spaces zero m p = none
skip_spaces (suc n) m p = elim (is_space (m p)) [ true ↦ skip_spaces n m (p + 1) | false ↦ some p ]

-- `atoi` as a `u32`: spaces, a sign, digits. `none` is a number outside `int`, which C leaves
-- undefined, or a read behind the last address.
unfoldable pub atoi : Buffer → ℕ → Option ℕ
atoi m p = elim (skip_spaces (2 ^ 32 - p) m p) [
  | none ↦ none
  | some q ↦
      let signed = m q == 43 || m q == 45 in
      let first = if signed then q + 1 else q in
      elim (digits_from (2 ^ 32 - first) m first 0) [
        | none ↦ none
        | some v ↦
            if m q == 45
            then (if leb v (2 ^ 31) then some (sub32 0 v) else none)
            else if ltb v (2 ^ 31)
            then some v
            else none
      ]
]

-- `Arch::Subfile`; the name is an address and a length
pub record Subfile : Type 0 where
  pub name : ℕ
  pub name_len : ℕ
  pub size : ℕ
  pub content : ℕ

-- The members of `Arch`, with the address and the size of the table of long names together.
pub record Archive : Type 0 where
  pub valid : Bool
  pub subfiles : List Subfile
  pub lfn_file : Option (ℕ × ℕ)

-- the eight bytes "!<arch>\n"
abbrev pub magic : List ℕ
magic = codes "!<arch>" ++ 10 ∷ []

abbrev pub header_size : ℕ
header_size = 0x3C

-- One header of the loop: the file it stands for.
unfoldable pub read_header : Buffer → ℕ → Option Subfile
read_header m start = elim (strchr_from m (start + 1) (if not (m start == 47) then 47 else 32)) [
  | none ↦ none
  | some name_end ↦ elim (atoi m (start + 0x30)) [
    | none ↦ none
    | some n ↦ some record {
      name = start;
      name_len = sub32 name_end start;
      size = n;
      content = start + header_size;
    }
  ]
]

-- The name `//`, which the table of long names has.
abbrev pub is_lfn : Buffer → Subfile → Bool
is_lfn m f = f.name_len == 2 && str_eq (bytes_at m f.name 2) (47 ∷ 47 ∷ [])

-- The loop of the constructor, by rounds: the files and the table of long names.
unfoldable pub read_headers :
    ℕ → Buffer → ℕ → ℕ → Option (ℕ × ℕ) → Option (List Subfile × Option (ℕ × ℕ))
read_headers zero m start end_ lfn = none
read_headers (suc rounds) m start end_ lfn = elim (leb (start + header_size) end_) [
  | false ↦ some ([], lfn)
  | true ↦ elim (m start == 10) [
    | true ↦ read_headers rounds m (start + 1) end_ lfn
    | false ↦ elim (read_header m start) [
      | none ↦ none
      | some f ↦
          let lfn' = if is_lfn m f then some (f.content, f.size) else lfn in
          let next = u32 (start + u32 (header_size + f.size)) in
          elim (read_headers rounds m next end_ lfn') [
            | none ↦ none
            | some (fs, found) ↦ some (f ∷ fs, found)
          ]
    ]
  ]
]

-- The constructor, with a round for each byte of the file.
unfoldable pub open_archive : Buffer → ℕ → ℕ → Option Archive
open_archive m file size =
    let start = file + 8 in
    elim (str_eq (bytes_at m file 8) magic) [
      | false ↦ some record { valid = false; subfiles = []; lfn_file = none }
      | true ↦ elim (read_headers (size + 1) m start (start + size) none) [
        | none ↦ none
        | some (fs, found) ↦ some record { valid = true; subfiles = fs; lfn_file = found }
      ]
    ]

-- A number as `%d` prints it, with `n` digits at most before the last.
unfoldable pub decimal : ℕ → ℕ → List ℕ
decimal zero v = (48 + v % 10) ∷ []
decimal (suc n) v = elim (ltb v 10) [
  | true ↦ (48 + v) ∷ []
  | false ↦ decimal n (v / 10) ++ ((48 + v % 10) ∷ [])
]

-- The loop of `getShortName`, by rounds: `some none` is a name that is not in the table.
unfoldable pub find_long : ℕ → Buffer → ℕ → ℕ → ℕ → List ℕ → Option (Option (List ℕ))
find_long zero m table start end_ name = none
find_long (suc rounds) m table start end_ name = elim (ltb start end_) [
  | false ↦ some none
  | true ↦ elim (m start == 10 || m start == 32) [
    | true ↦ find_long rounds m table (start + 1) end_ name
    | false ↦ elim (strchr_from m start 47) [
      | none ↦ none
      | some name_end ↦
          let len = sub32 name_end start in
          elim (length name == len && str_eq (bytes_at m start (length name)) name) [
            | true ↦ some (some (take 7 (47 ∷ decimal 10 (start - table))))
            | false ↦ find_long rounds m table (name_end + 1) end_ name
          ]
    ]
  ]
]

-- `getShortName`, with a round for each byte of the table
unfoldable pub get_short_name : Buffer → Archive → List ℕ → Option (Option (List ℕ))
get_short_name m a name = elim a.lfn_file [
  | none ↦ some none
  | some (table, size) ↦ find_long (size + 1) m table table (table + size) name
]

-- The loop of `getFile`: the address of the file and its size.
unfoldable pub find_file : Buffer → List Subfile → List ℕ → Option (ℕ × ℕ)
find_file m [] name = none
find_file m (f ∷ fs) name =
    if length name == f.name_len && str_eq (bytes_at m f.name (length name)) name
    then some (f.content, f.size)
    else find_file m fs name

-- `getFile`
unfoldable pub get_file : Buffer → Archive → List ℕ → Option (Option (ℕ × ℕ))
get_file m a name =
    if ltb 15 (length name)
    then elim (get_short_name m a name) [
      | none ↦ none
      | some none ↦ some none
      | some (some short) ↦ some (find_file m a.subfiles short)
    ]
    else some (find_file m a.subfiles name)
