-- ===== src/Riivolution/Tests.antt =====
-- Runs on a device with one file, `a.xml`, in both directories, and a parser that finds a description
-- without sections in every text.
use saoirse.Prelude.{
  ℕ, ◌≡◌, refl, none, some, List, [], replicate, length, codes, str_eq, if◌then◌else◌, ◌==◌, arith,
  pos, All,
}
use saoirse.Riivolution.{
  RiivoEnv, XmlFile, load_xml, finish_xml, parse_xml, find_wiidisc, read_disc, get_array,
  next_nodes, regions_of, search_dir, search_paths, ends_with, on_device_insertion,
  on_device_removal,
}
use saoirse.Riivolution.Removal.{
  Reachable, made, inserted, IsFrom, kept_files_located, removal_keeps_all,
}

-- The world is the number of entries still to be listed; `long` is the length of the file.
abbrev device : ℕ → RiivoEnv
device long = record {
  World = ℕ;
  open_control = λ w. (pos 3, 1);
  dir_open = λ path w. (pos 0, w);
  dir_next = λ w. (
    pos 0,
    record { size = long; attribute = 0x20; name = if w == 0 then [] else codes "a.xml" },
    0,
  );
  direct_open = λ path w. (pos 0, 0);
  read = λ n w. (pos n, replicate n 65, w);
  close_control = λ w. w;
  memalign = λ n w. (some (λ x. 0), w);
  max_entries = 2;
  max_nodes = 2;
  Node = ℕ;
  load_string = λ text. some 0;
  get_element = λ n. some (codes "wiidisc");
  find_element = λ n top name below.
      if str_eq name (codes "id")
      then some 1
      else if str_eq name (codes "options")
      then some 2
      else none;
  get_attr = λ n name. some (codes "1");
}

abbrev found : List XmlFile
found = elim (on_device_insertion (device 5) 2 [] 0) [ none ↦ [] | some (xs, w) ↦ xs ]

finds : on_device_insertion (device 5) 2 [] 0 ≡ some (found, 0)
unfolding on_device_insertion search_paths search_dir load_xml finish_xml parse_xml find_wiidisc
    read_disc get_array next_nodes regions_of ends_with str_eq
finds = refl

two_found : length found ≡ 2
unfolding on_device_insertion search_paths search_dir load_xml finish_xml parse_xml find_wiidisc
    read_disc get_array next_nodes regions_of ends_with str_eq
two_found = refl

found-Reachable : Reachable (device 5) found
found-Reachable = inserted 2 0 0 made (omega arith) finds

kept_files_located_example : All IsFrom found
kept_files_located_example = kept_files_located (device 5) found found-Reachable

removal_keeps_all_example : on_device_removal 2 found ≡ some found
removal_keeps_all_example = removal_keeps_all (device 5) found 2 found-Reachable (omega arith)

-- A file of 64 bytes.
whole_blocks_fault : load_xml (device 64) (codes "2:/riivolution/a.xml") 64 [] 0 ≡ none
unfolding load_xml finish_xml
whole_blocks_fault = refl
