-- ===== src/Arch/Parse.antt =====
-- channel/Main/Arch.cpp: what the reader makes of the header of a member.
use saoirse.Prelude.{
  ℕ, zero, suc, ◌+◌, ◌-◌, ◌*◌, ◌<◌, ◌^◌, ◌≡◌, refl, ◌∙◌, ap, false, some, List, [], ◌∷◌, ◌++◌,
  length, map, All, ◌==◌, arith, subst, sub32,
}
use saoirse.Prelude.Buffers.{Buffer}
use saoirse.Arch.{strchr, strchr_from, is_digit, digits_from, skip_spaces, atoi, read_header}
use saoirse.Arch.Layout.{
  Member, IsMember, IsNameByte, IsDigit, value_from, pad, size_field, header, Holds, Holds-append,
  Holds-join, length-pad,
}

strchr_finds :
    (fuel : ℕ) (m : Buffer) (p : ℕ) (n : List ℕ)
    → Holds m p (n ++ (47 ∷ []))
    → All IsNameByte n
    → length n < fuel
    → strchr fuel m p 47 ≡ some (p + length n)
unfolding strchr
strchr_finds zero m p n h names room = absurd (omega (arith, room))
strchr_finds (suc fuel) m p [] h names room =
    let here : p + 0 ≡ p = omega arith in ground (arith, h, here)
strchr_finds (suc fuel) m p (c ∷ n) h names room =
    let rest = strchr_finds fuel m (p + 1) n h.1 names.1 (omega (arith, room)) in
    let (name, more) = names in let (byte, after) = h in ground (arith, byte, name, rest)

digits_read :
    (fuel : ℕ) (m : Buffer) (p acc : ℕ) (ds : List ℕ) (e : ℕ)
    → Holds m p (map (λ d. 48 + d) ds ++ (e ∷ []))
    → All IsDigit ds
    → is_digit e ≡ false
    → length ds < fuel
    → digits_from fuel m p acc ≡ some (value_from acc ds)
unfolding digits_from
digits_read zero m p acc ds e h digits ends room = absurd (omega (arith, room))
digits_read (suc fuel) m p acc [] e h digits ends room = ground (arith, h, ends)
digits_read (suc fuel) m p acc (d ∷ ds) e h digits ends room =
    let rest =
      digits_read fuel m (p + 1) (acc * 10 + d) ds e h.1 digits.1 ends (omega (arith, room)) in
    let (digit, more) = digits in
    let (byte, after) = h in
    let back : m p - 48 ≡ d = omega (arith, byte) in ground (arith, byte, digit, rest, back)

-- A number in a header: its digits, and a byte that is not one.
atoi_reads :
    (m : Buffer) (p : ℕ) (ds : List ℕ) (e : ℕ)
    → Holds m p (map (λ d. 48 + d) ds ++ (e ∷ []))
    → All IsDigit ds
    → is_digit e ≡ false
    → 0 < length ds
    → value_from 0 ds < 2 ^ 31
    → p + length ds < 2 ^ 32
    → atoi m p ≡ some (value_from 0 ds)
unfolding atoi skip_spaces
atoi_reads m p [] e h digits ends some_digits small room = absurd (omega (arith, some_digits))
atoi_reads m p (d ∷ ds) e h digits ends some_digits small room =
    let (byte, after) = h in
    let (digit, more) = digits in
    let value = digits_read (2 ^ 32 - p) m p 0 (d ∷ ds) e h digits ends (omega (arith, room)) in
    let first : skip_spaces (2 ^ 32 - p) m p ≡ some p =
      first_read (2 ^ 32 - p) (omega (arith, room)) byte digit in
    rw (atoi, first) (ground (arith, byte, digit, value, small))
  where
    first_read : (fuel : ℕ) → 0 < fuel → m p ≡ 48 + d → d < 10 → skip_spaces fuel m p ≡ some p
    first_read zero room byte digit = absurd (omega (arith, room))
    first_read (suc fuel) room byte digit = ground (arith, byte, digit)

-- What ends the digits: a space of the padding or the mark that ends a header.
pad-ends :
    (m : Buffer) (q n : ℕ) (xs : List ℕ)
    → Holds m q (pad n xs ++ (96 ∷ 10 ∷ []))
    → is_digit (m q) ≡ false
pad-ends m q zero [] h = ground (arith, h)
pad-ends m q (suc n) [] h = let (space, more) = h in ground (arith, space)
pad-ends m q zero (x ∷ xs) h = ground (arith, h)
pad-ends m q (suc n) (x ∷ xs) h = pad-ends m q n xs h

-- A name starts with neither a slash nor a newline.
pub name_first :
    (m : Buffer) (p : ℕ) (n : List ℕ)
    → Holds m p n
    → All IsNameByte n
    → 0 < length n
    → ((m p == 47) ≡ false) × ((m p == 10) ≡ false)
name_first m p [] h names some_bytes = absurd (omega (arith, some_bytes))
name_first m p (c ∷ n) h names some_bytes =
    let (byte, after) = h in
    let (name, more) = names in (ground (arith, byte, name), ground (arith, byte, name))

-- The search for the slash finds the end of a name.
name_end :
    (m : Buffer) (p : ℕ) (n : List ℕ)
    → Holds m p (n ++ (47 ∷ []))
    → All IsNameByte n
    → 0 < length n
    → p + length n < 2 ^ 32
    → strchr_from m (p + 1) 47 ≡ some (p + length n)
name_end m p [] h names some_bytes room = absurd (omega (arith, some_bytes))
name_end m p (c ∷ n) h names some_bytes room =
    let (byte, after) = h in
    let (name, more) = names in
    let found = strchr_finds (2 ^ 32 - (p + 1)) m (p + 1) n after more (omega (arith, room)) in
    let at : p + 1 + length n ≡ p + suc (length n) = omega arith in found ∙ ap some at

-- The parts of a header that the reader looks for.
pub header_reads :
    (m : Buffer) (p : ℕ) (a : Member)
    → IsMember a
    → Holds m p (header a)
    → p + 60 < 2 ^ 32
    → read_header m p
      ≡ some
          (record { name = p; name_len = length a.name; size = length a.bytes; content = p + 60 })
unfolding read_header
header_reads m p a fine h room =
    let (name, (slash, rest)) = Holds-append m p a.name _ h in
    let q = p + length a.name + 1 in
    let (filler, rest2) = Holds-append m q (pad 15 a.name) _ rest in
    let (stamp, rest3) = Holds-append m (q + length (pad 15 a.name)) a.stamp _ rest2 in
    let at : q + length (pad 15 a.name) + length a.stamp ≡ p + 0x30 =
      omega (arith, fine.stamped, length-pad 15 a.name fine.short) in
    let field : Holds m (p + 0x30) (size_field a) =
      subst (λ x. Holds m x (size_field a)) at rest3 in
    let (figures, ending) = Holds-append m (p + 0x30) (map (λ d. 48 + d) a.digits) _ field in
    let size : atoi m (p + 0x30) ≡ some (value_from 0 a.digits) =
      atoi_reads m (p + 0x30) a.digits (m (p + 0x30 + length (map (λ d. 48 + d) a.digits)))
        (Holds-join m (p + 0x30) (map (λ d. 48 + d) a.digits) _ figures (refl, tt)) fine.sized
        (pad-ends m _ 10 a.digits ending) fine.some_digits
        (omega (arith, fine.says_size, fine.small)) (omega (arith, fine.few_digits, room)) in
    let (first, line) = name_first m p a.name name fine.name_bytes fine.named in
    let ends =
      name_end m p a.name (Holds-join m p a.name _ name (slash, tt)) fine.name_bytes fine.named
        (omega (arith, room, fine.short)) in
    let len : sub32 (p + length a.name) p ≡ length a.name = omega (arith, room, fine.short) in
    ground (arith, first, ends, size, len, fine.says_size)
