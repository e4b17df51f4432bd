-- ===== src/Riivolution.antt =====
-- channel/Patch/Riivolution.cpp: the patch descriptions (XML files) that the channel finds on storage
-- devices, and what it keeps of them.
mod Paths
mod Removal
mod Load
mod Tests
use saoirse.Prelude.{
  ℕ, zero, suc, ◌+◌, ◌-◌, ◌*◌, ◌/◌, ◌%◌, ◌^◌, Bool, true, false, ◌&&◌, ◌||◌, not, Option, none,
  some, List, [], ◌∷◌, ◌++◌, length, get_or, drop, ltb, leb, ◌==◌, if◌then◌else◌, codes, str_eq, ℤ,
  pos, eq_ℤ, is_neg, u32,
}
use saoirse.Prelude.Buffers.{Buffer, blit}
use saoirse.EmuFs.IsfsError

-- `ISFSDirect_Stat` (common/System/ISFS.hpp), as far as it is looked at
pub record DirectStat : Type 0 where
  pub size : ℕ
  pub attribute : ℕ
  pub name : List ℕ

-- What the handler calls: the requests of the emulated file system, the allocation of memory, and
-- the library that parses XML (mxml) with its trees. Results of the file system are codes, and what it
-- gives is bytes.
pub record RiivoEnv : Type 1 where
  pub World : Type 0
  pub open_control : World → ℤ × World
  pub dir_open : List ℕ → World → ℤ × World
  pub dir_next : World → ℤ × DirectStat × World
  pub direct_open : List ℕ → World → ℤ × World
  pub read : ℕ → World → ℤ × List ℕ × World
  pub close_control : World → World
  pub memalign : ℕ → World → Option Buffer × World
  -- a bound on the entries of a directory, and on the nodes of a tree
  pub max_entries : ℕ
  pub max_nodes : ℕ
  pub Node : Type 0
  pub load_string : Buffer → Option Node
  pub get_element : Node → Option (List ℕ)
  -- from a node on below another, into the first node's children or not
  pub find_element : Node → Node → List ℕ → Bool → Option Node
  pub get_attr : Node → List ℕ → Option (List ℕ)

-- `XmlFile` and the structures in it
pub record Choice : Type 0 where
  pub name : List ℕ
  pub patches : List (List ℕ)

pub record PatchOption : Type 0 where
  pub name : List ℕ
  pub id : List ℕ
  pub default_choice : List ℕ
  pub choices : List Choice

pub record PatchSection : Type 0 where
  pub name : List ℕ
  pub options : List PatchOption

pub record DiscId : Type 0 where
  pub game : List ℕ
  pub developer : List ℕ
  pub disc : List ℕ
  pub version : List ℕ
  pub regions : List (List ℕ)

pub record WiiDisc : Type 0 where
  pub root : List ℕ
  pub id : DiscId
  pub sections : List PatchSection

pub record XmlFile : Type 0 where
  pub path : List ℕ
  pub file_data : Buffer
  pub wiidisc : WiiDisc

-- `round_up(size, 32)`
abbrev pub round_up_32 : ℕ → ℕ
round_up_32 n = let raw = u32 (u32 n + 31) in raw - raw % 32

-- `s.ends_with(t)`
unfoldable pub ends_with : List ℕ → List ℕ → Bool
ends_with s t = leb (length t) (length s) && str_eq (drop (length s - length t) s) t

abbrev pub bind {ℓ κ} : {A : Type ℓ} {B : Type κ} → Option A → (A → Option B) → Option B
bind o f = elim o [ none ↦ none | some a ↦ f a ]

-- What is collected from each item; `none` where one gives none.
abbrev pub collect {ℓ κ} : {A : Type ℓ} {B : Type κ} → (A → Option B) → List A → Option (List B)
collect f [] = some []
collect f (x ∷ xs) = bind (f x) (λ y. bind (collect f xs) (λ ys. some (y ∷ ys)))

-- `makeString`
abbrev pub make_string : Option (List ℕ) → List ℕ
make_string none = []
make_string (some s) = s

-- An entry that is no file to load: a system file or a directory, or one over 16 MiB.
abbrev pub is_skipped : DirectStat → Bool
is_skipped stat =
    stat.attribute / 4 % 2 == 1 || stat.attribute / 16 % 2 == 1 || ltb 0x01000000 stat.size

-- `std::string(1, '0' + id)`
abbrev pub device_char : ℕ → ℕ
device_char id = (48 + id) % 256

module _ (E : RiivoEnv) where
  open E use {World, Node, find_element, get_attr, get_element}

  abbrev pub attr : Node → List ℕ → List ℕ
  attr n name = make_string (get_attr n name)

  -- The loop of `xmlGetArray`; `none` is that it does not end within the nodes of the tree.
  unfoldable pub next_nodes : ℕ → Node → List ℕ → Option Node → Option (List Node)
  next_nodes fuel root name none = some []
  next_nodes zero root name (some n) = none
  next_nodes (suc fuel) root name (some n) =
      bind (next_nodes fuel root name (find_element n root name false)) (λ ns. some (n ∷ ns))

  -- `xmlGetArray`
  unfoldable pub get_array : Node → List ℕ → Option (List Node)
  get_array root name = next_nodes E.max_nodes root name (find_element root root name true)

  unfoldable pub read_choice : Node → Option Choice
  read_choice n = bind (get_array n (codes "patch")) (λ patches.
      bind (collect (λ p. some (attr p (codes "id"))) patches)
        (λ ids. some (record { name = attr n (codes "name"); patches = ids })))

  unfoldable pub read_option : Node → Option PatchOption
  read_option n = bind (get_array n (codes "choice")) (λ ns.
      bind (collect read_choice ns) (λ choices. some (record {
        name = attr n (codes "name");
        id = attr n (codes "id");
        default_choice = attr n (codes "default");
        choices = choices;
      })))

  unfoldable pub read_section : Node → Option PatchSection
  read_section n = bind (get_array n (codes "option")) (λ ns.
      bind (collect read_option ns)
        (λ options. some (record { name = attr n (codes "name"); options = options })))

  -- The loop over `region` elements: those with a type.
  unfoldable pub regions_of : List Node → List (List ℕ)
  regions_of [] = []
  regions_of (n ∷ ns) =
      let type_ = attr n (codes "type") in
      let rest = regions_of ns in if not (str_eq type_ []) then type_ ∷ rest else rest

  -- The end of `ParseXml`, with the elements found: what the file says of the disc.
  unfoldable pub read_disc : Node → Node → Option (Option WiiDisc)
  read_disc wiidisc id = bind (get_array id (codes "region")) (λ regions.
      elim (find_element wiidisc wiidisc (codes "options") true) [
        | none ↦ some none
        | some options ↦ bind (get_array options (codes "section")) (λ ns.
            bind (collect read_section ns) (λ sections. some (
              some (record {
                root = attr wiidisc (codes "root");
                id = record {
                  game = attr id (codes "game");
                  developer = attr id (codes "developer");
                  disc = attr id (codes "disc");
                  version = attr id (codes "version");
                  regions = regions_of regions;
                };
                sections = sections;
              }))))
      ])

  -- The element `wiidisc` of a tree: the root or the first below it. The outer `none` is a root that
  -- is not an element, whose name is a null pointer.
  unfoldable pub find_wiidisc : Node → Option (Option Node)
  find_wiidisc tree = bind (get_element tree) (λ name.
      if str_eq name (codes "wiidisc")
      then some (some tree)
      else some (find_element tree tree (codes "wiidisc") true))

  -- `ParseXml`: the inner `none` is a file that is passed over.
  unfoldable pub parse_xml : Buffer → Option (Option WiiDisc)
  parse_xml text = elim (E.load_string text) [
    | none ↦ some none
    | some tree ↦ bind (find_wiidisc tree) (λ found. elim found [
      | none ↦ some none
      | some wiidisc ↦
          if not (str_eq (attr wiidisc (codes "version")) (codes "1"))
          then some none
          else elim (find_element wiidisc wiidisc (codes "id") true) [
            | none ↦ some none
            | some id ↦ read_disc wiidisc id
          ]
    ])
  ]

  -- The patches kept and the world; `none` is a failed assertion, a null pointer, a write outside of
  -- a buffer, or a loop that does not end within its bound.
  abbrev pub Kept : Type 0
  Kept = Option (List XmlFile × World)

  -- The end of `LoadXml`: the terminator is written behind the bytes read, and the text is parsed.
  unfoldable pub finish_xml : List ℕ → ℕ → Buffer → List XmlFile → World → Kept
  finish_xml path size text xmls w =
      let whole = blit text size (0 ∷ []) in
      if not (ltb size (round_up_32 size))
      then none
      else bind (parse_xml whole) (λ parsed. elim parsed [
        | none ↦ some (xmls, w)
        | some disc ↦
            some (xmls ++ (record { path = path; file_data = whole; wiidisc = disc } ∷ []), w)
      ])

  -- `LoadXml`
  unfoldable pub load_xml : List ℕ → ℕ → List XmlFile → World → Kept
  load_xml path size xmls w =
      let (memory, w1) = E.memalign (round_up_32 size) w in
      let (fd, w2) = E.open_control w1 in
      let (opened, w3) = E.direct_open path w2 in
      let (ret, got, w4) = E.read size w3 in
      elim memory [
        | none ↦ some (xmls, w1)
        | some b ↦
            if is_neg fd
            then none
            else if not (eq_ℤ opened IsfsError.ok)
            then some (xmls, E.close_control w3)
            else if not (eq_ℤ ret (pos size))
            then some (xmls, E.close_control w4)
            else finish_xml path size (blit b 0 got) xmls (E.close_control w4)
      ]

  -- The loop over a directory, by rounds.
  unfoldable pub search_dir : ℕ → List ℕ → List XmlFile → World → Kept
  search_dir zero path xmls w = none
  search_dir (suc rounds) path xmls w =
      let (ret, stat, w1) = E.dir_next w in
      let xml_path = path ++ (47 ∷ stat.name) in
      if not (eq_ℤ ret IsfsError.ok)
      then some (xmls, w1)
      else if str_eq stat.name []
      then some (xmls, w1)
      else elim (is_skipped stat || not (ends_with xml_path (codes ".xml"))) [
        | true ↦ search_dir rounds path xmls w1
        | false ↦
            bind (load_xml xml_path stat.size xmls w1)
              (λ kept. search_dir rounds path kept.0 kept.1)
      ]

  -- The loop over the directories of a device.
  unfoldable pub search_paths : List (List ℕ) → List XmlFile → World → Kept
  search_paths [] xmls w = some (xmls, w)
  search_paths (path ∷ paths) xmls w =
      let (fd, w1) = E.open_control w in
      let (opened, w2) = E.dir_open path w1 in
      if is_neg fd
      then none
      else if not (eq_ℤ opened IsfsError.ok)
      then search_paths paths xmls (E.close_control w2)
      else bind (search_dir (suc E.max_entries) path xmls w2)
          (λ kept. search_paths paths kept.0 (E.close_control kept.1))

  -- `OnDeviceInsertion`
  unfoldable pub on_device_insertion : ℕ → List XmlFile → World → Kept
  on_device_insertion id xmls w =
      search_paths
        ((device_char id ∷ codes ":/riivolution")
          ∷ (device_char id ∷ codes ":/apps/riivolution")
          ∷ [])
        xmls w

-- The loop of `OnDeviceRemoval` at an index: the entry behind one that is erased moves to its place
-- and is passed over. `none` is an iterator that has gone past the end.
unfoldable pub erase_from : ℕ → ℕ → List XmlFile → Option (List XmlFile)
erase_from id zero [] = some []
erase_from id (suc skip) [] = none
erase_from id (suc skip) (x ∷ xs) = bind (erase_from id skip xs) (λ ys. some (x ∷ ys))
erase_from id zero (x ∷ xs) = elim (get_or x.path 0 0 == id) [
  | true ↦ erase_from id 1 xs
  | false ↦ bind (erase_from id zero xs) (λ ys. some (x ∷ ys))
]

-- `OnDeviceRemoval`; `dev` is `'\0' + id`
unfoldable pub on_device_removal : ℕ → List XmlFile → Option (List XmlFile)
on_device_removal id xmls = erase_from (id % 256) 0 xmls
