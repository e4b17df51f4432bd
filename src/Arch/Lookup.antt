-- ===== src/Arch/Lookup.antt =====
-- channel/Main/Arch.cpp: a file of an archive is found under its name.
use saoirse.Prelude.{
  ℕ, zero, suc, ◌+◌, ◌-◌, ◌*◌, ◌%◌, ◌<◌, ◌≤◌, ◌^◌, ◌≡◌, inl, inr, refl, ap, Bool, true, false, ◌&&◌,
  Option, none, some, List, [], ◌∷◌, ◌++◌, length, All, ◌==◌, ltb, leb, if◌then◌else◌, arith,
  length-append, subst, u32, str_eq, str_eq_refl, eq_of_str_eq, Bool-cases,
}
use saoirse.Prelude.Buffers.{Buffer, bytes_at}
use saoirse.Arch.{Subfile, Archive, is_lfn, read_headers, open_archive, find_file, get_file, magic}
use saoirse.Arch.Layout.{
  Member, IsMember, header, newline_if, filler, print_member, print_members, print_archive, Holds,
  Holds-append, Holds-join, length-header,
}
use saoirse.Arch.Parse.{header_reads, name_first}

-- The files that the reader finds, from an address on.
abbrev files_at : ℕ → List Member → List Subfile
files_at p [] = []
files_at p (a ∷ rest) =
    record { name = p; name_len = length a.name; size = length a.bytes; content = p + 60 }
    ∷ files_at (p + 60 + length a.bytes + length (filler a)) rest

-- Members with short names never give a table of long names.
not_lfn : (m : Buffer) (f : Subfile) → (m f.name == 47) ≡ false → is_lfn m f ≡ false
unfolding str_eq
not_lfn m f other = ground (arith, other)

-- The parts of a member in memory, and the members after it.
member_parts :
    (m : Buffer) (p : ℕ) (a : Member) (rest : List Member)
    → IsMember a
    → Holds m p (print_members (a ∷ rest))
    → Holds m p (header a)
      × Holds m (p + 60) a.bytes
      × Holds m (p + 60 + length a.bytes) (filler a)
      × Holds m (p + 60 + length a.bytes + length (filler a)) (print_members rest)
member_parts m p a rest fine h =
    let sizes = length-append (header a) (a.bytes ++ filler a) in
    let more = length-append a.bytes (filler a) in
    let sixty = length-header a fine in
    let (front, back) = Holds-append m p (print_member a) (print_members rest) h in
    let (head, body) = Holds-append m p (header a) (a.bytes ++ filler a) front in
    let (content, fill) = Holds-append m (p + length (header a)) a.bytes (filler a) body in
    let start : p + length (header a) ≡ p + 60 = omega (arith, sixty) in
    let after : p + length (header a) + length a.bytes ≡ p + 60 + length a.bytes =
      omega (arith, sixty) in
    let onwards : p + length (print_member a) ≡ p + 60 + length a.bytes + length (filler a) =
      omega (arith, sizes, more, sixty) in
    (
      head,
      subst (λ x. Holds m x a.bytes) start content,
      subst (λ x. Holds m x (filler a)) after fill,
      subst (λ x. Holds m x (print_members rest)) onwards back,
    )

length-members :
    (a : Member) (rest : List Member)
    → IsMember a
    → length (print_members (a ∷ rest))
      ≡ 60 + length a.bytes + length (filler a) + length (print_members rest)
length-members a rest fine = omega (
  arith,
  length-append (header a) (a.bytes ++ filler a),
  length-append a.bytes (filler a),
  length-append (print_member a) (print_members rest),
  length-header a fine,
)

module _ (m : Buffer) (end_ : ℕ) (room : end_ < 2 ^ 32 - 60) where
  -- The loop on the members, and after a member's bytes.
  unfoldable Reads : List Member → Type 0
  Reads members =
      (rounds p : ℕ)
      → Holds m p (print_members members)
      → p + length (print_members members) + 8 ≡ end_
      → length members * 2 < rounds
      → read_headers rounds m p end_ none ≡ some (files_at p members, none)

  filler-Reads :
      (rest : List Member)
      → Reads rest
      → (odd : Bool) (rounds p : ℕ) → Holds m p (newline_if odd ++ print_members rest)
      → p + length (newline_if odd) + length (print_members rest) + 8 ≡ end_
      → length rest * 2 + 1 < rounds
      → read_headers rounds m p end_ none ≡ some (files_at (p + length (newline_if odd)) rest, none)
  unfolding Reads read_headers
  filler-Reads rest ih false rounds p h ends enough =
      let at : p + 0 ≡ p = omega arith in
      rw at (ih rounds p h (omega (arith, ends)) (omega (arith, enough)))
  filler-Reads rest ih true zero p h ends enough = absurd (omega (arith, enough))
  filler-Reads rest ih true (suc zero) p h ends enough = absurd (omega (arith, enough))
  filler-Reads rest ih true (suc (suc rounds)) p h ends enough =
      let (newline, after) = h in
      let found = ih (suc rounds) (p + 1) after ends (omega (arith, enough)) in
      elim (Bool-cases (leb (p + 60) end_)) [
        | inl within ↦
            let newline_here : (m p == 10) ≡ true = ground (arith, newline) in
            rw (read_headers, within) (rw newline_here found)
        | inr over ↦
            let past : leb (p + 1 + 60) end_ ≡ false = ground (arith, over) in
            rw (read_headers, over) (rw (read_headers, past) at found)
      ]

  read_headers-Reads : (members : List Member) → All IsMember members → Reads members
  unfolding Reads read_headers
  read_headers-Reads [] fine zero p h ends enough = absurd (omega (arith, enough))
  read_headers-Reads [] fine (suc rounds) p h ends enough =
      let over : leb (p + 60) end_ ≡ false = ground (arith, ends) in rw (read_headers, over) refl
  read_headers-Reads (a ∷ rest) fine zero p h ends enough = absurd (omega (arith, enough))
  read_headers-Reads (a ∷ rest) fine (suc rounds) p h ends enough =
      let whole = length-members a rest fine.0 in
      let (head, content, fill, back) = member_parts m p a rest fine.0 h in
      let read = header_reads m p a fine.0 head (omega (arith, ends, whole, room)) in
      let name = (Holds-append m p a.name _ head).0 in
      let (slash, newline) = name_first m p a.name name fine.0.name_bytes fine.0.named in
      let within : leb (p + 60) end_ ≡ true = ground (arith, ends, whole) in
      let f : Subfile = record {
        name = p;
        name_len = length a.name;
        size = length a.bytes;
        content = p + 60;
      } in
      let short : is_lfn m f ≡ false = not_lfn m f slash in
      let next : u32 (p + u32 (60 + length a.bytes)) ≡ p + 60 + length a.bytes =
        omega (arith, ends, whole, room) in
      let q = p + 60 + length a.bytes in
      let tail = Holds-join m q (filler a) (print_members rest) fill back in
      let others : read_headers rounds m q end_ none
          ≡ some (files_at (q + length (filler a)) rest, none) =
        filler-Reads rest (read_headers-Reads rest fine.1) (length a.bytes % 2 == 1) rounds q tail
          (omega (arith, ends, whole)) (omega (arith, enough)) in
      rw (read_headers, within) (rw newline (rw read (rw short (rw next (rw others refl)))))

-- The first member of a name.
abbrev pub find_member : List Member → List ℕ → Option Member
find_member [] name = none
find_member (a ∷ rest) name = if str_eq a.name name then some a else find_member rest name

-- What a search answers: the address of the bytes of a member and their number, or nothing.
abbrev pub Answers : Buffer → Option Member → Option (ℕ × ℕ) → Type 0
Answers m none found = found ≡ none
Answers m (some a) found = (q : ℕ) × (found ≡ some (q, length a.bytes)) × Holds m q a.bytes

bytes_at-Holds : (m : Buffer) (p : ℕ) (xs : List ℕ) → Holds m p xs → bytes_at m p (length xs) ≡ xs
bytes_at-Holds m p [] h = refl
bytes_at-Holds m p (x ∷ xs) (here, there) =
    let rest = bytes_at-Holds m (p + 1) xs there in rw here (rw rest refl)

-- The test of a name in a file's header.
same_name :
    (m : Buffer) (p : ℕ) (given name : List ℕ)
    → Holds m p given
    → (length name == length given && str_eq (bytes_at m p (length name)) name) ≡ str_eq given name
same_name m p given name h = elim (Bool-cases (length name == length given)) [
  | inl as_long ↦
      let lengths : length name ≡ length given = ground (arith, as_long) in
      let bytes : bytes_at m p (length name) ≡ given = rw lengths (bytes_at-Holds m p given h) in
      rw as_long (rw bytes refl)
  | inr other ↦ elim (Bool-cases (str_eq given name)) [
    | inl same ↦ absurd (ground (arith, other, ap length (eq_of_str_eq given name same)))
    | inr differ ↦ rw other (rw differ refl)
  ]
]

find_file-Answers :
    (m : Buffer) (p : ℕ) (members : List Member) (name : List ℕ)
    → All IsMember members
    → Holds m p (print_members members)
    → Answers m (find_member members name) (find_file m (files_at p members) name)
unfolding find_file
find_file-Answers m p [] name fine h = refl
find_file-Answers m p (a ∷ rest) name fine h =
    let (head, content, fill, back) = member_parts m p a rest fine.0 h in
    let named = same_name m p a.name name (Holds-append m p a.name _ head).0 in
    let others =
      find_file-Answers m (p + 60 + length a.bytes + length (filler a)) rest name fine.1 back in
    elim (Bool-cases (str_eq a.name name)) [
      | inl same ↦ rw named (rw same (p + 60, refl, content))
      | inr differ ↦ rw named (rw differ others)
    ]

few_members :
    (members : List Member)
    → All IsMember members
    → length members * 2 ≤ length (print_members members)
few_members [] fine = omega arith
few_members (a ∷ rest) fine = omega (arith, length-members a rest fine.0, few_members rest fine.1)

-- An archive of members with short names in memory, below the end of the address space: the reader
-- opens it, and for a name of at most 15 bytes it gives the address of the first member of that name,
-- where memory holds the member's bytes, with their number, and nothing where no member has the name.
pub get_file_exact :
    (m : Buffer) (file : ℕ) (members : List Member) (name : List ℕ)
    → All IsMember members
    → Holds m file (print_archive members)
    → file + length (print_archive members) + 8 < 2 ^ 32 - 60
    → length name ≤ 15
    → (a : Archive) × (open_archive m file (length (print_archive members)) ≡ some a)
      × (found : Option (ℕ × ℕ)) × (get_file m a name ≡ some found)
      × Answers m (find_member members name) found
unfolding open_archive get_file Reads
get_file_exact m file members name fine h room short =
    let (start, body) = Holds-append m file magic (print_members members) h in
    let size = length (print_archive members) in
    let open_ : str_eq (bytes_at m file 8) magic ≡ true =
      rw (bytes_at-Holds m file magic start) (str_eq_refl magic) in
    let read =
      read_headers-Reads m (file + 8 + size) (omega (arith, room)) members fine (size + 1)
        (file + 8) body (omega arith) (omega (arith, few_members members fine)) in
    let found = find_file-Answers m (file + 8) members name fine body in
    let as_short : ltb 15 (length name) ≡ false = ground (arith, short) in
    (
      record { valid = true; subfiles = files_at (file + 8) members; lfn_file = none },
      rw (open_archive, open_) (rw read refl),
      find_file m (files_at (file + 8) members) name,
      rw (get_file, as_short) refl,
      found,
    )
