-- ===== src/Apploader.antt =====
-- channel/Apploader/Apploader.cpp and AppPayload.cpp: how the channel opens the partition of a game
-- and has the game's own loader, a program on the disc, say what to read.
mod Boot
mod Tests
use saoirse.Prelude.{
  ℕ, zero, suc, ◌+◌, ◌-◌, ◌*◌, ◌/◌, ◌%◌, Bool, true, false, not, Option, none, some, List, ltb,
  ◌==◌, if◌then◌else◌, ℤ, eq_ℤ, u32,
}
use saoirse.Prelude.Buffers.{Buffer, blit, word}
use saoirse.EmuDi.DiError

-- A request of the game's loader to copy: `AppPayload::CopyCommand`
pub record CopyCommand : Type 0 where
  pub dest : ℕ
  pub len : ℕ
  pub offset : ℕ

-- What the loading calls: the driver of the drive, whether the task was cancelled, and the program on
-- the disc, which is started at an address and then gives commands and at last the entry point.
-- `started` is that the functions it gives are there.
pub record LoadEnv : Type 1 where
  pub World : Type 0
  pub unencrypted_read : ℕ → ℕ → World → ℤ × List ℕ × World
  pub read : ℕ → ℕ → World → ℤ × List ℕ × World
  pub open_partition : ℕ → World → ℤ × World
  pub is_cancelled : World → Bool
  pub started : ℕ → Buffer → World → Bool × World
  pub next_command : Buffer → World → Option CopyCommand × World
  pub entrypoint : Buffer → World → ℕ × World
  -- a bound on the commands
  pub max_commands : ℕ

-- `Volume`, `Partition` and the parts of `ApploaderInfo` that are used
pub record Volume : Type 0 where
  pub num_boot_info : ℕ
  pub ofs_partition_info : ℕ

pub record Partition : Type 0 where
  pub offset : ℕ
  pub type_ : ℕ

abbrev pub payload_entrypoint : Buffer → ℕ
payload_entrypoint info = word info 0x10

abbrev pub payload_size : Buffer → ℕ
payload_size info = word info 0x14

-- where the payload is read to
abbrev pub payload_address : ℕ
payload_address = 0x81200000

-- The arrays of four in the bytes read.
abbrev pub volume_at : Buffer → ℕ → Volume
volume_at b i = record { num_boot_info = word b (i * 8); ofs_partition_info = word b (i * 8 + 4) }

abbrev pub partition_at : Buffer → ℕ → Partition
partition_at b i = record { offset = word b (i * 8); type_ = word b (i * 8 + 4) }

-- `std::find_if` for type 0, from an entry on with a number of entries left: the index.
unfoldable pub find_type_0 : ℕ → (ℕ → Partition) → ℕ → ℕ
find_type_0 zero parts i = i
find_type_0 (suc left) parts i =
    let rest = find_type_0 left parts (i + 1) in if (parts i).type_ == 0 then i else rest

-- `findBootPartition`: the index, `none` is the null pointer.
unfoldable pub find_boot_partition : Volume → (ℕ → Partition) → Option ℕ
find_boot_partition volume parts =
    let n = volume.num_boot_info in
    elim (ltb 4 n) [
      | true ↦ none
      | false ↦ let found = find_type_0 n parts 0 in if found == 4 then none else some found
    ]

module _ (E : LoadEnv) where
  open E use {World}

  -- `readVolumes` and `readPartitions`: a failed read is only printed.
  unfoldable pub read_volumes : World → (ℕ → Volume) × World
  read_volumes w =
      let (ret, got, w1) = E.unencrypted_read 32 0x10000 w in (volume_at (blit (λ x. 0) 0 got), w1)

  unfoldable pub read_partitions : Volume → World → (ℕ → Partition) × World
  read_partitions volume w =
      let (ret, got, w1) = E.unencrypted_read 32 volume.ofs_partition_info w in
      (partition_at (blit (λ x. 0x46) 0 got), w1)

  -- `openBootPartition`; `none` is the end of the task.
  unfoldable pub open_boot_partition : World → Option World
  open_boot_partition w =
      let (volumes, w1) = read_volumes w in
      let (parts, w2) = read_partitions (volumes 0) w1 in
      if E.is_cancelled w1
      then none
      else if E.is_cancelled w2
      then none
      else elim (find_boot_partition (volumes 0) parts) [
        | none ↦ none
        | some k ↦
            let (ret, w3) = E.open_partition (parts k).offset w2 in
            if E.is_cancelled w2 then none else if eq_ℤ ret DiError.ok then some w3 else none
      ]

  -- `readAppInfo`
  unfoldable pub read_app_info : World → Buffer × World
  read_app_info w = let (ret, got, w1) = E.read 32 (0x2440 / 4) w in (blit (λ x. 0) 0 got, w1)

  -- `AppPayload::AppPayload`; `none` is an abort.
  unfoldable pub read_payload : Buffer → Buffer → World → Option (Buffer × World)
  read_payload info m w =
      let raw = u32 (payload_size info + 31) in
      let (ret, got, w1) = E.read (raw - raw % 32) (0x2460 / 4) w in
      let m1 = blit m payload_address got in
      let (fine, w2) = E.started (payload_entrypoint info) m1 w1 in
      if payload_size info == 0
      then none
      else if not (eq_ℤ ret DiError.ok)
      then none
      else if payload_entrypoint info == 0
      then none
      else if fine
      then some (m1, w2)
      else none

  -- `loadSegments`, by rounds.
  unfoldable pub load_segments : ℕ → Buffer → World → Option (Buffer × World)
  load_segments zero m w = none
  load_segments (suc rounds) m w = elim (E.is_cancelled w) [
    | true ↦ none
    | false ↦
        let (command, w1) = E.next_command m w in
        elim command [
          | none ↦ some (m, w1)
          | some c ↦ elim (E.is_cancelled w1) [
            | true ↦ none
            | false ↦
                let (ret, got, w2) = E.read c.len (c.offset - c.offset % 4) w1 in
                load_segments rounds (blit m c.dest got) w2
          ]
        ]
  ]

  -- `Apploader::load`: the entry point, with memory.
  unfoldable pub load : Buffer → World → Option (ℕ × Buffer × World)
  load m w = elim (open_boot_partition w) [
    | none ↦ none
    | some w1 ↦ elim (E.is_cancelled w1) [
      | true ↦ none
      | false ↦
          let (info, w2) = read_app_info w1 in
          elim (E.is_cancelled w2) [
            | true ↦ none
            | false ↦ elim (read_payload info m w2) [
              | none ↦ none
              | some (m1, w3) ↦ elim (load_segments (suc E.max_commands) m1 w3) [
                | none ↦ none
                | some (m2, w4) ↦
                    if E.is_cancelled w4
                    then none
                    else let (entry, w5) = E.entrypoint m2 w4 in some (entry, m2, w5)
              ]
            ]
          ]
    ]
  ]
