-- ===== src/Disk/Storage/Total.antt =====
-- ios/Disk/USBStorage.cpp: the commands end without a failed assertion, whatever the device answers.
use saoirse.Prelude.{
  ℕ, zero, suc, ◌+◌, ◌-◌, ◌*◌, ◌/◌, ◌%◌, ◌≤◌, ◌<◌, ◌≡◌, ◌⊎◌, inl, inr, arith, refl, Bool, true,
  false, not, ◌&&◌, ◌||◌, some, List, [], ◌∷◌, ltb, ◌==◌, if◌then◌else◌, length, u32, min,
  Bool-cases, Option-cases,
}
use saoirse.Prelude.Buffers.{Buffer, blit, fill_zero, copy}
use saoirse.Disk.Usb.{UsbEnv, write_bulk_msg}
use saoirse.Disk.Storage.{
  UsbStorage, csw_size, cbw_size, chunk_max, is_good_status, bulk, transfer_chunks, read_status,
  transfer_data, scsi_transfer, command_wrapper, Done, Answer, init_lun, test_unit_ready, inquiry,
  request_sense, try_lun, zeroes, scsi_inquiry, scsi_request_sense,
}
use saoirse.Disk.Storage.Stream.{HasBuffer}

module _ (U : UsbEnv) where
  open U use {World}

  -- It returns, and the buffer stays where it is.
  abbrev pub Returns : Done U → Type 0
  Returns r =
      (fine : Bool) × (bytes : Buffer) × (s : UsbStorage) × (w : World) × (r
        ≡ some (fine, bytes, s, w))
      × HasBuffer s

  abbrev pub Answers : Answer U → Type 0
  Answers r = (fine : Bool) × (s : UsbStorage) × (w : World) × (r ≡ some (fine, s, w)) × HasBuffer s

  -- The same with the result fixed.
  abbrev AnswersWith : Bool → Answer U → Type 0
  AnswersWith fine r = (s : UsbStorage) × (w : World) × (r ≡ some (fine, s, w)) × HasBuffer s

  abbrev ReturnsWith : Bool → Done U → Type 0
  ReturnsWith fine r =
      (bytes : Buffer) × (s : UsbStorage) × (w : World) × (r ≡ some (fine, bytes, s, w))
      × HasBuffer s

  pub Answers-cases : (r : Answer U) → Answers r → AnswersWith true r ⊎ AnswersWith false r
  Answers-cases r (true, s, w, e, has) = inl (s, w, e, has)
  Answers-cases r (false, s, w, e, has) = inr (s, w, e, has)

  pub Returns-cases : (r : Done U) → Returns r → ReturnsWith true r ⊎ ReturnsWith false r
  Returns-cases r (true, b, s, w, e, has) = inl (b, s, w, e, has)
  Returns-cases r (false, b, s, w, e, has) = inr (b, s, w, e, has)

  pub HasBuffer-kept :
      (s s' : UsbStorage) (tag : ℕ)
      → HasBuffer s
      → s' ≡ record s { tag = tag; buffer = s'.buffer }
      → HasBuffer s'
  HasBuffer-kept s s' tag has same = (ground (arith, has, same), ground (arith, has, same))

  bulk-Answers :
      (endpoint n : ℕ) (s : UsbStorage) (w : World) → HasBuffer s → Answers (bulk U endpoint n s w)
  unfolding bulk write_bulk_msg
  bulk-Answers endpoint n s w has = elim (Option-cases (bulk U endpoint n s w)) [
    | inl stop ↦ absurd (ground (arith, stop, has))
    | inr ((fine, s2, w2), e) ↦
        (fine, s2, w2, e, HasBuffer-kept s s2 s2.tag has (ground (arith, e)))
  ]

  transfer_chunks-Returns :
      (rounds left at : ℕ) (is_write : Bool) (bytes : Buffer) (s : UsbStorage) (w : World)
      → HasBuffer s
      → left + chunk_max ≤ rounds * chunk_max
      → Returns (transfer_chunks U rounds is_write left at bytes s w)
  unfolding transfer_chunks
  transfer_chunks-Returns zero left at is_write bytes s w has enough =
      absurd (omega (arith, enough))
  transfer_chunks-Returns (suc rounds) left at is_write bytes s w has enough =
      let n = min left chunk_max in
      let endpoint = if is_write then s.out_endpoint else s.in_endpoint in
      let s1 : UsbStorage = record s {
        buffer = if is_write then copy s.buffer 0 bytes at n else s.buffer;
      } in
      elim (Bool-cases (left == 0)) [
        | inl done ↦ rw done (true, bytes, s, w, refl, has)
        | inr more ↦ elim (Answers-cases _ (bulk-Answers endpoint n s1 w has)) [
          | inr (s2, w2, e, has2) ↦ rw more (rw e (false, bytes, s2, w2, refl, has2))
          | inl (s2, w2, e, has2) ↦ rw more (
              rw e (
                transfer_chunks-Returns rounds (left - n) (at + n) is_write
                  (if is_write then bytes else copy bytes at s2.buffer 0 n) s2 w2 has2
                  (ground (arith, more, enough))))
        ]
      ]

  read_status-Returns :
      (bytes : Buffer) (s : UsbStorage) (w : World)
      → HasBuffer s
      → Returns (read_status U bytes s w)
  unfolding read_status
  read_status-Returns bytes s w has =
      let s1 : UsbStorage = record s { buffer = fill_zero s.buffer 0 cbw_size } in
      let (fine, s2, w2, e, has2) = bulk-Answers s.in_endpoint cbw_size s1 w has in
      (fine && is_good_status s2.tag s2.buffer, bytes, s2, w2, ground (arith, e), has2)

  transfer_data-Returns :
      (is_write : Bool) (size : ℕ) (bytes : Buffer) (s : UsbStorage) (w : World)
      → HasBuffer s
      → Returns (transfer_data U is_write size bytes s w)
  unfolding transfer_data
  transfer_data-Returns is_write size bytes s w has =
      elim (Returns-cases _ (
        transfer_chunks-Returns (size / chunk_max + 2) size 0 is_write bytes s w has
          (omega arith))) [
            | inl (bytes', s2, w2, e, has2) ↦
                rw (transfer_data, e) (read_status-Returns bytes' s2 w2 has2)
            | inr (bytes', s2, w2, e, has2) ↦
                rw (transfer_data, e) (false, bytes', s2, w2, refl, has2)
          ]

  -- The sizes and the command meet the assertions of `SCSITransfer`.
  abbrev pub IsCommand : ℕ → Bool → ℕ → List ℕ → Type 0
  IsCommand size has_data lun cb =
      (has_data ≡ ltb 0 size) × (lun ≤ 16) × (0 < length cb) × (length cb ≤ 16)

  pub scsi_transfer-Returns :
      (is_write has_data : Bool) (size lun : ℕ) (bytes : Buffer) (cb : List ℕ) (s : UsbStorage)
      (w : World)
      → HasBuffer s
      → IsCommand size has_data lun cb
      → Returns (scsi_transfer U is_write size has_data bytes lun cb s w)
  unfolding scsi_transfer
  scsi_transfer-Returns is_write has_data size lun bytes cb s w has c =
      let tag = u32 (s.tag + 1) in
      let b = blit (fill_zero s.buffer 0 csw_size) 0 (command_wrapper is_write tag size lun cb) in
      let s1 : UsbStorage = record s { tag = tag; buffer = b } in
      let sizes : (size == 0) && has_data || not (size == 0) && not has_data ≡ false =
        ground (arith, c) in
      let lun_in : ltb 16 lun ≡ false = ground (arith, c) in
      let cb_in : ltb (length cb) 1 || ltb 16 (length cb) ≡ false = ground (arith, c) in
      elim (Answers-cases _ (bulk-Answers s.out_endpoint csw_size s1 w has)) [
        | inl (s2, w2, e, has2) ↦
            rw sizes
              (rw lun_in (rw cb_in (rw e (transfer_data-Returns is_write size bytes s2 w2 has2))))
        | inr (s2, w2, e, has2) ↦
            rw sizes (rw lun_in (rw cb_in (rw e (false, bytes, s2, w2, refl, has2))))
      ]

  pub test_unit_ready-Returns :
      (lun : ℕ) (s : UsbStorage) (w : World)
      → HasBuffer s
      → lun ≤ 16
      → Returns (test_unit_ready U lun s w)
  unfolding test_unit_ready
  test_unit_ready-Returns lun s w has lun_in =
      scsi_transfer-Returns false false 0 lun (zeroes U) _ s w has
        (refl, lun_in, omega arith, omega arith)

  init_lun-Answers :
      (lun : ℕ) (s : UsbStorage) (w : World) → HasBuffer s → lun ≤ 16 → Answers (init_lun U lun s w)
  unfolding init_lun inquiry
  init_lun-Answers lun s w has lun_in =
      elim (Returns-cases _ (test_unit_ready-Returns lun s w has lun_in)) [
        | inr (b, s1, w1, e, has1) ↦ rw (init_lun, e) (false, s1, w1, refl, has1)
        | inl (b, s1, w1, e, has1) ↦
            let (fine, b2, s2, w2, e2, has2) =
              scsi_transfer-Returns false true 36 lun (zeroes U)
                (scsi_inquiry ∷ lun * 32 % 256 ∷ 0 ∷ 0 ∷ 36 ∷ 0 ∷ []) s1 w1 has1
                (refl, lun_in, omega arith, omega arith) in
            rw (init_lun, e) (rw (inquiry, e2) (fine && b2 0 % 32 == 0, s2, w2, refl, has2))
      ]

  pub try_lun-Answers :
      (tries lun : ℕ) (s : UsbStorage) (w : World)
      → HasBuffer s
      → lun ≤ 16
      → Answers (try_lun U tries lun s w)
  unfolding try_lun request_sense
  try_lun-Answers zero lun s w has lun_in = (false, s, w, refl, has)
  try_lun-Answers (suc tries) lun s w has lun_in =
      elim (Answers-cases _ (init_lun-Answers lun s w has lun_in)) [
        | inl (s1, w1, e, has1) ↦ rw (try_lun, e) (true, s1, w1, refl, has1)
        | inr (s1, w1, e, has1) ↦
            let (fine, b2, s2, w2, e2, has2) =
              scsi_transfer-Returns false true 18 lun (zeroes U)
                (scsi_request_sense ∷ 0 ∷ 0 ∷ 0 ∷ 18 ∷ 0 ∷ []) s1 w1 has1
                (refl, lun_in, omega arith, omega arith) in
            rw (try_lun, e) (rw e2 (try_lun-Answers tries lun s2 w2 has2 lun_in))
      ]
