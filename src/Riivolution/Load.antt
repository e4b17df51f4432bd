-- ===== src/Riivolution/Load.antt =====
-- channel/Patch/Riivolution.cpp, `LoadXml`: the terminator behind the text.
use saoirse.Prelude.{ℕ, ◌%◌, ◌≤◌, ◌≡◌, false, none, some, List, ltb, arith, pos, is_neg}
use saoirse.Prelude.Buffers.{Buffer}
use saoirse.EmuFs.IsfsError
use saoirse.Riivolution.{RiivoEnv, XmlFile, finish_xml, load_xml, round_up_32}

module _ (E : RiivoEnv) where
  open E use {World}

  -- A file of at most 16 MiB whose length is a multiple of 32, for which there is memory, and which is
  -- opened and read whole: the terminator is written behind the end of the buffer.
  pub load_xml_overruns :
      (path : List ℕ) (size : ℕ) (b : Buffer) (xmls : List XmlFile) (w : World)
      → size ≤ 0x01000000
      → size % 32 ≡ 0
      → (E.memalign (round_up_32 size) w).0 ≡ some b
      → is_neg (E.open_control (E.memalign (round_up_32 size) w).1).0 ≡ false
      → (E.direct_open path (E.open_control (E.memalign (round_up_32 size) w).1).1).0 ≡ IsfsError.ok
      → (E.read size
          (E.direct_open path (E.open_control (E.memalign (round_up_32 size) w).1).1).1).0
        ≡ pos size
      → load_xml E path size xmls w ≡ none
  unfolding load_xml finish_xml
  load_xml_overruns path size b xmls w small whole memory fd opened read =
      let full : ltb size (round_up_32 size) ≡ false = ground (arith, small, whole) in
      ground (arith, full, memory, fd, opened, read)
