-- ===== src/Arch/Tests.antt =====
-- Runs of the reader on an archive of two members, and on a table of long names.
use saoirse.Prelude.{
  ℕ, suc, ◌+◌, ◌-◌, ◌<◌, ◌≡◌, ◌∙◌, ap, arith, true, Option, some, List, [], ◌∷◌, ◌++◌, refl, length,
  get_or, replicate, codes, str_eq,
}
use saoirse.Prelude.Buffers.{Buffer, blit}
use saoirse.Arch.{Archive, open_archive, get_file, get_short_name, find_long, strchr, decimal}
use saoirse.Arch.Layout.{Member, IsMember, Holds, print_archive}
use saoirse.Arch.Lookup.{find_member, Answers, get_file_exact}

abbrev first : Member
first = record {
  name = codes "boot.bin";
  stamp = replicate 32 32;
  digits = 3 ∷ [];
  bytes = 7 ∷ 8 ∷ 9 ∷ [];
}

abbrev second : Member
second = record {
  name = codes "a";
  stamp = replicate 32 32;
  digits = 0 ∷ 2 ∷ [];
  bytes = 5 ∷ 6 ∷ [];
}

abbrev members : List Member
members = first ∷ second ∷ []

abbrev memory : Buffer
memory = blit (λ x. 0) 0x100 (print_archive members)

Holds-bytes :
    (m : Buffer) (p : ℕ) (bs : List ℕ)
    → ((i : ℕ) → i < length bs → m (p + i) ≡ get_or bs i 0)
    → Holds m p bs
Holds-bytes m p [] each = tt
Holds-bytes m p (b ∷ bs) each =
    let start : p ≡ p + 0 = omega arith in
    (
      ap m start ∙ each 0 (omega arith),
      Holds-bytes m (p + 1) bs (λ i lt.
          let at : p + 1 + i ≡ p + suc i = omega arith in
          ap m at ∙ each (suc i) (omega (arith, lt))),
    )

blit-Holds : (m : Buffer) (p : ℕ) (bs : List ℕ) → Holds (blit m p bs) p bs
blit-Holds m p bs = Holds-bytes (blit m p bs) p bs (λ i lt.
    let at : p + i - p ≡ i = omega arith in
    let here : get_or bs (p + i - p) 0 ≡ get_or bs i 0 = ap (λ x. get_or bs x 0) at in
    ground (arith, lt, here))

first-IsMember : IsMember first
first-IsMember = record {
  name_bytes = ground arith;
  named = omega arith;
  short = omega arith;
  stamped = refl;
  sized = (omega arith, tt);
  some_digits = omega arith;
  few_digits = omega arith;
  says_size = refl;
  small = omega arith;
}

second-IsMember : IsMember second
second-IsMember = record {
  name_bytes = ground arith;
  named = omega arith;
  short = omega arith;
  stamped = refl;
  sized = (omega arith, (omega arith, tt));
  some_digits = omega arith;
  few_digits = omega arith;
  says_size = refl;
  small = omega arith;
}

get_file_exact_example :
    (a : Archive) × (open_archive memory 0x100 (length (print_archive members)) ≡ some a)
    × (found : Option (ℕ × ℕ)) × (get_file memory a (codes "a") ≡ some found)
    × Answers memory (find_member members (codes "a")) found
get_file_exact_example =
    get_file_exact memory 0x100 members (codes "a") (first-IsMember, (second-IsMember, tt))
      (blit-Holds (λ x. 0) 0x100 (print_archive members)) (omega arith) (omega arith)

-- The second of two long names is at offset 19 of the table.
abbrev table : List ℕ
table = codes "a-rather-long-name/" ++ (10 ∷ codes "another-long-name/")

abbrev long_names : Archive
long_names = record { valid = true; subfiles = []; lfn_file = some (0x200, length table) }

long_name_found :
    get_short_name (blit (λ x. 0) 0x200 table) long_names (codes "another-long-name")
    ≡ some (some (codes "/20"))
unfolding get_short_name find_long strchr decimal str_eq
long_name_found = refl
