-- ===== src/Arch/Layout.antt =====
-- The format of the archives that channel/Main/Arch.cpp reads: members with short names, each a
-- header of 60 bytes, the bytes of the file, and a newline where their number is odd.
use saoirse.Prelude.{
  ℕ, zero, suc, ◌+◌, ◌*◌, ◌%◌, ◌<◌, ◌≤◌, ◌^◌, ◌≡◌, ◌≢◌, refl, ap, Bool, List, [], ◌∷◌, ◌++◌, length,
  replicate, map, All, ◌==◌, if◌then◌else◌, arith, length-append, length-replicate, subst,
}
use saoirse.Prelude.Buffers.{Buffer}
use saoirse.Arch.{magic}

-- A member: its name, the 32 bytes of its date, owner and mode, the digits of its size, and its bytes.
pub record Member : Type 0 where
  pub name : List ℕ
  pub stamp : List ℕ
  pub digits : List ℕ
  pub bytes : List ℕ

-- The number that decimal digits stand for, after those before them.
abbrev pub value_from : ℕ → List ℕ → ℕ
value_from acc [] = acc
value_from acc (d ∷ ds) = value_from (acc * 10 + d) ds

-- `n` spaces, less one for each item of a list.
abbrev pub pad : {A : Type 0} → ℕ → List A → List ℕ
pad n [] = replicate n 32
pad zero (x ∷ xs) = []
pad (suc n) (x ∷ xs) = pad n xs

-- The digits of the size and what comes after them.
abbrev pub size_field : Member → List ℕ
size_field a = map (λ d. 48 + d) a.digits ++ (pad 10 a.digits ++ (96 ∷ 10 ∷ []))

abbrev pub header : Member → List ℕ
header a = a.name ++ (47 ∷ (pad 15 a.name ++ (a.stamp ++ size_field a)))

-- The newline after an odd number of bytes.
abbrev pub newline_if : Bool → List ℕ
newline_if odd = if odd then 10 ∷ [] else []

abbrev pub filler : Member → List ℕ
filler a = newline_if (length a.bytes % 2 == 1)

abbrev pub print_member : Member → List ℕ
print_member a = header a ++ (a.bytes ++ filler a)

abbrev pub print_members : List Member → List ℕ
print_members [] = []
print_members (a ∷ rest) = print_member a ++ print_members rest

abbrev pub print_archive : List Member → List ℕ
print_archive members = magic ++ print_members members

-- A byte of a name in a header: not the end of a string, a newline or a slash.
abbrev pub IsNameByte : ℕ → Type 0
IsNameByte c = (c ≢ 0) × (c ≢ 10) × (c ≢ 47)

abbrev pub IsDigit : ℕ → Type 0
IsDigit d = d < 10

pub record IsMember (a : Member) : Type 0 where
  pub name_bytes : All IsNameByte a.name
  pub named : 0 < length a.name
  pub short : length a.name ≤ 15
  pub stamped : length a.stamp ≡ 32
  pub sized : All IsDigit a.digits
  pub some_digits : 0 < length a.digits
  pub few_digits : length a.digits ≤ 10
  pub says_size : value_from 0 a.digits ≡ length a.bytes
  pub small : length a.bytes < 2 ^ 31

-- Memory holds a list of bytes from an address on.
abbrev pub Holds : Buffer → ℕ → List ℕ → Type 0
Holds m p [] = Unit
Holds m p (b ∷ bs) = (m p ≡ b) × Holds m (p + 1) bs

pub Holds-append :
    (m : Buffer) (p : ℕ) (xs ys : List ℕ)
    → Holds m p (xs ++ ys)
    → Holds m p xs × Holds m (p + length xs) ys
Holds-append m p [] ys h = (tt, subst (λ q. Holds m q ys) (omega arith) h)
Holds-append m p (x ∷ xs) ys h =
    let (here, there) = h in
    let (front, back) = Holds-append m (p + 1) xs ys there in
    let at : p + 1 + length xs ≡ p + suc (length xs) = omega arith in
    ((here, front), subst (λ q. Holds m q ys) at back)

pub Holds-join :
    (m : Buffer) (p : ℕ) (xs ys : List ℕ)
    → Holds m p xs
    → Holds m (p + length xs) ys
    → Holds m p (xs ++ ys)
Holds-join m p [] ys hx hy = subst (λ q. Holds m q ys) (omega arith) hy
Holds-join m p (x ∷ xs) ys (here, there) hy =
    let at : p + suc (length xs) ≡ p + 1 + length xs = omega arith in
    (here, Holds-join m (p + 1) xs ys there (subst (λ q. Holds m q ys) at hy))

pub length-pad :
    {A : Type 0} (n : ℕ) (xs : List A) → length xs ≤ n → length (pad n xs) + length xs ≡ n
length-pad n [] le = omega (arith, length-replicate {A = ℕ} n 32)
length-pad zero (x ∷ xs) le = absurd (omega (arith, le))
length-pad (suc n) (x ∷ xs) le = omega (arith, length-pad n xs (omega (arith, le)))

pub length-map : {A B : Type 0} (f : A → B) (xs : List A) → length (map f xs) ≡ length xs
length-map f [] = refl
length-map f (x ∷ xs) = ap suc (length-map f xs)

pub length-header : (a : Member) → IsMember a → length (header a) ≡ 60
length-header a fine =
    let one = length-append a.name (47 ∷ (pad 15 a.name ++ (a.stamp ++ size_field a))) in
    let two = length-append (pad 15 a.name) (a.stamp ++ size_field a) in
    let three = length-append a.stamp (size_field a) in
    let four = length-append (map (λ d. 48 + d) a.digits) (pad 10 a.digits ++ (96 ∷ 10 ∷ [])) in
    let five = length-append (pad 10 a.digits) (96 ∷ 10 ∷ []) in
    let figures = length-map (λ d. 48 + d) a.digits in
    let name = length-pad 15 a.name fine.short in
    let size = length-pad 10 a.digits fine.few_digits in
    omega (arith, one, two, three, four, five, figures, name, size, fine.stamped)
