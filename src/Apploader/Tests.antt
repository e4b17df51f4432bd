-- ===== src/Apploader/Tests.antt =====
-- The search for the partition of a game, and a load of one segment.
use saoirse.Prelude.{
  ℕ, ◌+◌, ◌≡◌, refl, true, false, Option, none, some, [], ◌∷◌, ◌==◌, if◌then◌else◌, arith, pos,
  replicate, ◌++◌,
}
use saoirse.Prelude.Buffers.{Buffer}
use saoirse.Apploader.{
  LoadEnv, Volume, Partition, find_boot_partition, find_type_0, load, open_boot_partition,
  read_volumes, read_partitions, read_app_info, read_payload, load_segments,
}
use saoirse.Apploader.Boot.{find_boot_partition_exact}

abbrev two : Volume
two = record { num_boot_info = 2; ofs_partition_info = 0x10008 }

-- An update partition, and then the one of the game.
abbrev update_first : ℕ → Partition
update_first i = record { offset = 0x14000 + i; type_ = if i == 0 then 1 else 0 }

find_boot_partition_exact_example : find_boot_partition two update_first ≡ some 1
find_boot_partition_exact_example =
    find_boot_partition_exact two update_first 1 (omega arith) (omega arith)
      (λ j lt e. absurd (ground (arith, lt, e))) (λ lt. refl)

-- Without a partition of type 0 the third entry is taken.
abbrev updates : ℕ → Partition
updates i = record { offset = 0x14000 + i; type_ = 1 }

entry_behind_taken : find_boot_partition two updates ≡ some 2
unfolding find_boot_partition find_type_0
entry_behind_taken = refl

-- A drive whose bytes are all 1 and a payload that asks for one segment; the world counts its calls.
abbrev disc : LoadEnv
disc = record {
  World = ℕ;
  unencrypted_read = λ n o w. (
    pos 1,
    (if o == 0x10000
        then 0 ∷ 0 ∷ 0 ∷ 1 ∷ 0 ∷ 1 ∷ 0 ∷ 2 ∷ []
        else 0 ∷ 0 ∷ 0 ∷ 7 ∷ 0 ∷ 0 ∷ 0 ∷ 0 ∷ []),
    w,
  );
  read = λ n o w.
      (pos 1, (if o == 0x910 then replicate 20 1 ++ (0 ∷ 0 ∷ 0 ∷ 9 ∷ []) else replicate 4 1), w);
  open_partition = λ o w. (pos 1, o);
  is_cancelled = λ w. false;
  started = λ entry m w. (true, 0);
  next_command = λ m w.
      if w == 0 then (some (record { dest = 0x1000; len = 4; offset = 3 }), 1) else (none, w);
  entrypoint = λ m w. (m 0x1003, w);
  max_commands = 3;
}

abbrev entry_of : Option (ℕ × Buffer × ℕ) → ℕ
entry_of none = 0
entry_of (some (entry, m, w)) = entry

loads_segment : entry_of (load disc (λ x. 0) 0) ≡ 1
unfolding load open_boot_partition read_volumes read_partitions read_app_info read_payload
    load_segments find_boot_partition find_type_0
loads_segment = refl
