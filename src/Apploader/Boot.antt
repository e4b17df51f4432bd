-- ===== src/Apploader/Boot.antt =====
-- channel/Apploader/Apploader.cpp: which partition is opened.
use saoirse.Prelude.{
  ℕ, zero, suc, ◌+◌, ◌<◌, ◌≤◌, ◌≡◌, ◌≢◌, refl, false, none, some, ltb, ◌==◌, inl, inr, sym,
  Bool-cases, if◌then◌else◌, arith, subst,
}
use saoirse.Apploader.{Volume, Partition, find_type_0, find_boot_partition}

-- The search stops at the first entry of type 0, or behind the last one.
find_type_0_first :
    (left : ℕ) (parts : ℕ → Partition) (i k : ℕ)
    → i ≤ k
    → k ≤ i + left
    → ((j : ℕ) → i ≤ j → j < k → (parts j).type_ ≢ 0)
    → (k < i + left → (parts k).type_ ≡ 0)
    → find_type_0 left parts i ≡ k
unfolding find_type_0
find_type_0_first zero parts i k lo hi before at = omega (arith, lo, hi)
find_type_0_first (suc left) parts i k lo hi before at = elim (Bool-cases ((parts i).type_ == 0)) [
  | inl here ↦ elim (Bool-cases (ltb i k)) [
    | inl under ↦ absurd (before i (omega arith) (ground (arith, under)) (ground (arith, here)))
    | inr over ↦ let same : i ≡ k = ground (arith, over, lo) in rw here same
  ]
  | inr other ↦ elim (Bool-cases (i == k)) [
    | inl same ↦
        let there : i ≡ k = ground (arith, same) in
        let kind : (parts i).type_ ≡ 0 =
          subst (λ x. (parts x).type_ ≡ 0) (sym there) (at (omega (arith, there))) in
        absurd (ground (arith, other, kind))
    | inr differ ↦
        let above : i < k = ground (arith, differ, lo) in
        rw other (
          find_type_0_first left parts (i + 1) k (omega (arith, above)) (omega (arith, hi))
            (λ j low high. before j (omega (arith, low)) high)
            (λ inside. at (omega (arith, inside))))
  ]
]

-- Of a volume that announces at most four partitions, the first one of type 0 is taken; where none of
-- those announced is, the entry behind the last of them is, and nothing only where all four are
-- announced.
pub find_boot_partition_exact :
    (volume : Volume) (parts : ℕ → Partition) (k : ℕ)
    → volume.num_boot_info ≤ 4
    → k ≤ volume.num_boot_info
    → ((j : ℕ) → j < k → (parts j).type_ ≢ 0)
    → (k < volume.num_boot_info → (parts k).type_ ≡ 0)
    → find_boot_partition volume parts ≡ (if k == 4 then none else some k)
unfolding find_boot_partition
find_boot_partition_exact volume parts k few within before at =
    let found : find_type_0 volume.num_boot_info parts 0 ≡ k =
      find_type_0_first volume.num_boot_info parts 0 k (omega arith) (omega (arith, within))
        (λ j low high. before j high) (λ inside. at (omega (arith, inside))) in
    let valid : ltb 4 volume.num_boot_info ≡ false = ground (arith, few) in
    rw (find_boot_partition, valid) (rw found refl)
