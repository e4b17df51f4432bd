-- ===== src/Riivolution/Removal.antt =====
-- channel/Patch/Riivolution.cpp: the patches kept over insertions and removals of devices.
use saoirse.Prelude.{
  ℕ, ◌%◌, ◌<◌, ◌≡◌, refl, ap, subst, Bool, true, false, some, List, [], ◌∷◌, get_or, All, arith,
}
use saoirse.Riivolution.{
  RiivoEnv, XmlFile, device_char, on_device_insertion, erase_from, on_device_removal,
}
use saoirse.Riivolution.Paths.{directory, IsIn, search_paths-All}

-- A file in one of the two directories of a device.
abbrev pub IsFrom : XmlFile → Type 0
IsFrom x = (id : ℕ) × (id < 10) × (apps : Bool) × IsIn (directory id apps) x

-- The lists that insertions and removals of the devices 0 to 9 lead to.
pub data Reachable (E : RiivoEnv) : List XmlFile → Type 0 where
  made : Reachable E []
  inserted :
      {xs ys : List XmlFile} (id : ℕ) (w w' : E.World)
      → Reachable E xs
      → id < 10
      → on_device_insertion E id xs w ≡ some (ys, w')
      → Reachable E ys
  removed :
      {xs ys : List XmlFile} (id : ℕ)
      → Reachable E xs
      → id < 10
      → on_device_removal id xs ≡ some ys
      → Reachable E ys

first_byte :
    (id : ℕ) (apps : Bool) (x : XmlFile)
    → IsIn (directory id apps) x
    → get_or x.path 0 0 ≡ device_char id
first_byte id false x (name, at, xml) = ap (λ p. get_or p 0 0) at
first_byte id true x (name, at, xml) = ap (λ p. get_or p 0 0) at

erase_from_none :
    (id : ℕ) (xs : List XmlFile) → id < 10 → All IsFrom xs → erase_from id 0 xs ≡ some xs
unfolding erase_from
erase_from_none id [] small all = refl
erase_from_none id (x ∷ xs) small ((id', small', apps, here), all) =
    let first = first_byte id' apps x here in
    let rest = erase_from_none id xs small all in ground (arith, first, small, small', rest)

on_device_removal-none :
    (id : ℕ) (xs : List XmlFile) → id < 10 → All IsFrom xs → on_device_removal id xs ≡ some xs
unfolding on_device_removal
on_device_removal-none id xs small all =
    let same : id % 256 ≡ id = omega (arith, small) in rw same (erase_from_none id xs small all)

-- Over any insertions and removals of the devices 0 to 9, every patch file kept has a path in the
-- directory `riivolution` or `apps/riivolution` of one of these devices, and the extension `.xml`.
pub kept_files_located : (E : RiivoEnv) (xs : List XmlFile) → Reachable E xs → All IsFrom xs
unfolding on_device_insertion
kept_files_located E xs made = tt
kept_files_located E ys (inserted {xs = xs} id w w' before small e) =
    search_paths-All E IsFrom _ xs ys w w'
      ((λ x at. (id, small, false, at)), ((λ x at. (id, small, true, at)), tt))
      (kept_files_located E xs before) e
kept_files_located E ys (removed {xs = xs} id before small e) =
    let all = kept_files_located E xs before in
    let same : xs ≡ ys = ground (arith, e, on_device_removal-none id xs small all) in
    subst (All IsFrom) same all

-- After any insertions and removals of the devices 0 to 9, the removal of one of them changes
-- nothing: the files of a device stay when it goes.
pub removal_keeps_all :
    (E : RiivoEnv) (xs : List XmlFile) (id : ℕ)
    → Reachable E xs
    → id < 10
    → on_device_removal id xs ≡ some xs
removal_keeps_all E xs id before small =
    on_device_removal-none id xs small (kept_files_located E xs before)
