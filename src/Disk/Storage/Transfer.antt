-- ===== src/Disk/Storage/Transfer.antt =====
-- ios/Disk/USBStorage.cpp, `SCSITransfer`: what a transfer changes, and what a success means.
use saoirse.Prelude.{
  ◌⊎◌, inl, inr, refl, ℕ, zero, suc, ◌+◌, ◌-◌, ◌/◌, ◌≡◌, arith, Bool, true, false, some, List,
  if◌then◌else◌, u32, min, Option-cases,
}
use saoirse.Prelude.Buffers.{word_le, Buffer, blit, fill_zero, copy}
use saoirse.Disk.Usb.{UsbEnv}
use saoirse.Disk.Storage.{
  UsbStorage, csw_size, cbw_size, chunk_max, is_good_status, bulk, transfer_chunks, read_status,
  transfer_data, scsi_transfer, command_wrapper,
}

module _ (U : UsbEnv) where
  open U use {World}

  -- Only the buffer changes.
  abbrev pub SameButBuffer : UsbStorage → UsbStorage → Type 0
  SameButBuffer s s' = s' ≡ record s { buffer = s'.buffer }

  bulk-same :
      (endpoint len : ℕ) (s s' : UsbStorage) (w w' : World) (fine : Bool)
      → bulk U endpoint len s w ≡ some (fine, s', w')
      → SameButBuffer s s'
  unfolding bulk
  bulk-same endpoint len s s' w w' fine h = ground (arith, h)

  transfer_chunks-same :
      (rounds : ℕ) (is_write : Bool) (left at : ℕ) (bytes bytes' : Buffer) (s s' : UsbStorage)
      (w w' : World) (fine : Bool)
      → transfer_chunks U rounds is_write left at bytes s w ≡ some (fine, bytes', s', w')
      → SameButBuffer s s'
  unfolding transfer_chunks
  transfer_chunks-same zero is_write left at bytes bytes' s s' w w' fine h = cc
  transfer_chunks-same (suc rounds) is_write left at bytes bytes' s s' w w' fine h =
      let n = min left chunk_max in
      let endpoint = if is_write then s.out_endpoint else s.in_endpoint in
      let s1 : UsbStorage = record s {
        buffer = if is_write then copy s.buffer 0 bytes at n else s.buffer;
      } in
      elim (Option-cases (bulk U endpoint n s1 w)) [
        | inl stop ↦ ground (arith, stop, h)
        | inr ((true, s2, w2), e) ↦ ground (
          arith,
          h,
          e,
          bulk-same endpoint n s1 s2 w w2 true e,
          transfer_chunks-same rounds is_write (left - n) (at + n)
              (if is_write then bytes else copy bytes at s2.buffer 0 n) bytes' s2 s' w2 w' fine,
        )
        | inr ((false, s2, w2), e) ↦ ground (arith, h, e, bulk-same endpoint n s1 s2 w w2 false e)
      ]

  read_status_checked :
      (bytes bytes' : Buffer) (s s' : UsbStorage) (w w' : World) (fine : Bool)
      → read_status U bytes s w ≡ some (fine, bytes', s', w')
      → SameButBuffer s s' × (fine ≡ true → is_good_status s.tag s'.buffer ≡ true)
  unfolding read_status
  read_status_checked bytes bytes' s s' w w' fine h =
      let s1 : UsbStorage = record s { buffer = fill_zero s.buffer 0 cbw_size } in
      elim (Option-cases (bulk U s.in_endpoint cbw_size s1 w)) [
        | inl stop ↦ ground (arith, stop, h)
        | inr ((done, s2, w2), e) ↦
            let same = bulk-same s.in_endpoint cbw_size s1 s2 w w2 done e in
            (ground (arith, h, e, same), λ t. ground (arith, h, e, same, t))
      ]

  transfer_data_checked :
      (is_write fine : Bool) (size : ℕ) (bytes bytes' : Buffer) (s s' : UsbStorage) (w w' : World)
      → transfer_data U is_write size bytes s w ≡ some (fine, bytes', s', w')
      → SameButBuffer s s' × (fine ≡ true → is_good_status s.tag s'.buffer ≡ true)
  unfolding transfer_data
  transfer_data_checked is_write fine size bytes bytes' s s' w w' h =
      let rounds = size / chunk_max + 2 in
      elim (Option-cases (transfer_chunks U rounds is_write size 0 bytes s w)) [
        | inl stop ↦ absurd (ground (arith, stop, h))
        | inr ((true, b, s2, w2), e) ↦
            let same = transfer_chunks-same rounds is_write size 0 bytes b s s2 w w2 true e in
            let rest : read_status U b s2 w2 ≡ some (fine, bytes', s', w') = ground (arith, h, e) in
            let (same2, good) = read_status_checked b bytes' s2 s' w2 w' fine rest in
            (ground (arith, same, same2), λ t. ground (arith, good t, same))
        | inr ((false, b, s2, w2), e) ↦
            let same = transfer_chunks-same rounds is_write size 0 bytes b s s2 w w2 false e in
            (ground (arith, same, h, e), λ t. absurd (ground (arith, h, e, t)))
      ]

  good_status_words :
      (fine : Bool) (tag : ℕ) (b : Buffer)
      → (fine ≡ true → is_good_status tag b ≡ true)
      → (fine ≡ false)
        ⊎ ((word_le b 0 ≡ 0x53425355) × (word_le b 4 ≡ tag) × (word_le b 8 ≡ 0) × (b 12 ≡ 0))
  unfolding is_good_status
  good_status_words false tag b h = inl refl
  good_status_words true tag b h =
      let all = h refl in
      inr (ground (arith, all), ground (arith, all), ground (arith, all), ground (arith, all))

  -- A transfer that passes its assertions changes the buffer and counts its tag on, by 1 in 32 bits,
  -- and nothing else of the storage; where it reports success, the last status that the device sent
  -- has the signature 0x53425355, this tag, a residue of 0 and a status of 0, at the offsets 0, 4, 8
  -- and 12.
  pub scsi_transfer_checked :
      (is_write has_data fine : Bool) (size lun : ℕ) (bytes bytes' : Buffer) (cb : List ℕ)
      (s s' : UsbStorage) (w w' : World)
      → scsi_transfer U is_write size has_data bytes lun cb s w ≡ some (fine, bytes', s', w')
      → (s' ≡ record s { tag = u32 (s.tag + 1); buffer = s'.buffer })
        × ((fine ≡ false)
            ⊎ ((word_le s'.buffer 0 ≡ 0x53425355)
                × (word_le s'.buffer 4 ≡ u32 (s.tag + 1))
                × (word_le s'.buffer 8 ≡ 0)
                × (s'.buffer 12 ≡ 0)))
  unfolding scsi_transfer
  scsi_transfer_checked is_write has_data fine size lun bytes bytes' cb s s' w w' h =
      let tag = u32 (s.tag + 1) in
      let b = blit (fill_zero s.buffer 0 csw_size) 0 (command_wrapper is_write tag size lun cb) in
      let s1 : UsbStorage = record s { tag = tag; buffer = b } in
      elim (Option-cases (bulk U s.out_endpoint csw_size s1 w)) [
        | inl stop ↦ absurd (ground (arith, stop, h))
        | inr ((true, s2, w2), e) ↦
            let same = bulk-same s.out_endpoint csw_size s1 s2 w w2 true e in
            let rest : transfer_data U is_write size bytes s2 w2 ≡ some (fine, bytes', s', w') =
              ground (arith, h, e) in
            let (same2, good) =
              transfer_data_checked is_write fine size bytes bytes' s2 s' w2 w' rest in
            (
              ground (arith, same, same2),
              good_status_words fine (u32 (s.tag + 1)) s'.buffer λ t. ground (arith, good t, same),
            )
        | inr ((false, s2, w2), e) ↦
            let same = bulk-same s.out_endpoint csw_size s1 s2 w w2 false e in
            (ground (arith, same, h, e), inl (ground (arith, h, e)))
      ]
