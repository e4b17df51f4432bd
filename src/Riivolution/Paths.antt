-- ===== src/Riivolution/Paths.antt =====
-- channel/Patch/Riivolution.cpp: where the patches kept come from, and what the removal of a device
-- does to them.
use saoirse.Prelude.{
  ℕ, zero, suc, ◌≡◌, ◌⊎◌, inl, inr, refl, sym, subst, Bool, true, false, ◌||◌, not, none, some,
  List, [], ◌∷◌, ◌++◌, codes, str_eq, All, All-append, arith, Bool-cases, Option-cases, pos, eq_ℤ,
  is_neg,
}
use saoirse.Prelude.Buffers.{Buffer, blit}
use saoirse.EmuFs.IsfsError
use saoirse.Riivolution.{
  RiivoEnv, XmlFile, ends_with, parse_xml, finish_xml, load_xml, is_skipped, search_dir,
  search_paths, device_char, round_up_32,
}

-- The directories that a device is searched for patches in.
abbrev pub directory : ℕ → Bool → List ℕ
directory id false = device_char id ∷ codes ":/riivolution"
directory id true = device_char id ∷ codes ":/apps/riivolution"

-- A file in a directory whose name has the extension.
abbrev pub IsIn : List ℕ → XmlFile → Type 0
IsIn dir x =
    (name : List ℕ) × (x.path ≡ dir ++ (47 ∷ name)) × (ends_with x.path (codes ".xml") ≡ true)

-- What loading a file does to the list: nothing, or one entry more, of that path.
unfoldable Adds : List ℕ → List XmlFile → List XmlFile → Type 0
Adds path xmls xmls' =
    (xmls' ≡ xmls) ⊎ ((x : XmlFile) × (xmls' ≡ xmls ++ (x ∷ [])) × (x.path ≡ path))

module _ (E : RiivoEnv) where
  open E use {World}

  finish_xml-Adds :
      (path : List ℕ) (size : ℕ) (text : Buffer) (xmls xmls' : List XmlFile) (w w' : World)
      → finish_xml E path size text xmls w ≡ some (xmls', w')
      → Adds path xmls xmls'
  unfolding finish_xml Adds
  finish_xml-Adds path size text xmls xmls' w w' e =
      let whole = blit text size (0 ∷ []) in
      elim (Option-cases (parse_xml E whole)) [
        | inl fault ↦ absurd (ground (arith, e, fault))
        | inr (none, over) ↦ inl (ground (arith, e, over))
        | inr (some disc, parsed) ↦ inr (
          record { path = path; file_data = whole; wiidisc = disc },
          ground (arith, e, parsed),
          refl,
        )
      ]

  load_xml-Adds :
      (path : List ℕ) (size : ℕ) (xmls xmls' : List XmlFile) (w w' : World)
      → load_xml E path size xmls w ≡ some (xmls', w')
      → Adds path xmls xmls'
  unfolding load_xml Adds
  load_xml-Adds path size xmls xmls' w w' e =
      let (memory, w1) = E.memalign (round_up_32 size) w in
      let (fd, w2) = E.open_control w1 in
      let (opened, w3) = E.direct_open path w2 in
      let (ret, got, w4) = E.read size w3 in
      elim (Option-cases memory) [
        | inl full ↦ inl (ground (arith, e, full))
        | inr (b, given) ↦ elim (Bool-cases (is_neg fd)) [
          | inl failed ↦ absurd (ground (arith, e, given, failed))
          | inr fine ↦ elim (Bool-cases (eq_ℤ opened IsfsError.ok)) [
            | inr shut ↦ inl (ground (arith, e, given, fine, shut))
            | inl open_ ↦ elim (Bool-cases (eq_ℤ ret (pos size))) [
              | inr short ↦ inl (ground (arith, e, given, fine, open_, short))
              | inl full ↦
                  let done : finish_xml E path size (blit b 0 got) xmls (E.close_control w4)
                      ≡ some (xmls', w') =
                    ground (arith, e, given, fine, open_, full) in
                  finish_xml-Adds path size (blit b 0 got) xmls xmls' (E.close_control w4) w' done
            ]
          ]
        ]
      ]

  module _ (P : XmlFile → Type 0) where
    search_dir-All :
        (rounds : ℕ) (path : List ℕ) (xmls xmls' : List XmlFile) (w w' : World)
        → ((x : XmlFile) → IsIn path x → P x)
        → All P xmls
        → search_dir E rounds path xmls w ≡ some (xmls', w')
        → All P xmls'
    unfolding search_dir Adds
    search_dir-All zero path xmls xmls' w w' each all e = absurd (ground (arith, e))
    search_dir-All (suc rounds) path xmls xmls' w w' each all e =
        let (ret, stat, w1) = E.dir_next w in
        let file = path ++ (47 ∷ stat.name) in
        elim (Bool-cases (eq_ℤ ret IsfsError.ok)) [
          | inr failed ↦
              let same : xmls ≡ xmls' = ground (arith, e, failed) in subst (All P) same all
          | inl read ↦ elim (Bool-cases (str_eq stat.name [])) [
            | inl over ↦
                let same : xmls ≡ xmls' = ground (arith, e, read, over) in subst (All P) same all
            | inr named ↦
                elim (Bool-cases (is_skipped stat || not (ends_with file (codes ".xml")))) [
                  | inl skipped ↦
                      search_dir-All rounds path xmls xmls' w1 w' each all
                        (ground (arith, e, read, named, skipped))
                  | inr kept ↦ elim (Option-cases (load_xml E file stat.size xmls w1)) [
                    | inl fault ↦ absurd (ground (arith, e, read, named, kept, fault))
                    | inr ((more, w2), loaded) ↦
                        let xml : ends_with file (codes ".xml") ≡ true = ground (arith, kept) in
                        let rest : search_dir E rounds path more w2 ≡ some (xmls', w') =
                          ground (arith, e, read, named, kept, loaded) in
                        search_dir-All rounds path more xmls' w2 w' each
                          (elim (load_xml-Adds file stat.size xmls more w1 w2 loaded) [
                            | inl same ↦ subst (All P) (sym same) all
                            | inr (x, added, at) ↦
                                let found : IsIn path x = (stat.name, at, rw at xml) in
                                subst (All P) (sym added)
                                  (All-append P xmls (x ∷ []) all (each x found, tt))
                          ])
                          rest
                  ]
                ]
          ]
        ]

    pub search_paths-All :
        (paths : List (List ℕ)) (xmls xmls' : List XmlFile) (w w' : World)
        → All (λ path. (x : XmlFile) → IsIn path x → P x) paths
        → All P xmls
        → search_paths E paths xmls w ≡ some (xmls', w')
        → All P xmls'
    unfolding search_paths
    search_paths-All [] xmls xmls' w w' each all e =
        let same : xmls ≡ xmls' = ground (arith, e) in subst (All P) same all
    search_paths-All (path ∷ paths) xmls xmls' w w' each all e =
        let (fd, w1) = E.open_control w in
        let (opened, w2) = E.dir_open path w1 in
        elim (Bool-cases (is_neg fd)) [
          | inl failed ↦ absurd (ground (arith, e, failed))
          | inr fine ↦ elim (Bool-cases (eq_ℤ opened IsfsError.ok)) [
            | inr missing ↦
                search_paths-All paths xmls xmls' (E.close_control w2) w' each.1 all
                  (ground (arith, e, fine, missing))
            | inl open_ ↦ elim (Option-cases (search_dir E (suc E.max_entries) path xmls w2)) [
              | inl fault ↦ absurd (ground (arith, e, fine, open_, fault))
              | inr ((more, w3), searched) ↦
                  search_paths-All paths more xmls' (E.close_control w3) w' each.1
                    (search_dir-All (suc E.max_entries) path xmls more w2 w3 each.0 all searched)
                    (ground (arith, e, fine, open_, searched))
            ]
          ]
        ]
