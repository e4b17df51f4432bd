-- ===== src/Disk/Storage/Stream.antt =====
-- ios/Disk/USBStorage.cpp, `SCSITransfer`: a read from a device that answers with a stream of bytes.
use saoirse.Prelude.{
  Bool, ℕ, zero, suc, ◌+◌, ◌-◌, ◌*◌, ◌/◌, ◌^◌, ◌≤◌, ◌<◌, ◌≡◌, ◌∙◌, ◌⊎◌, inl, inr, arith, refl, sym,
  ap, true, false, some, List, ◌==◌, pos, length, u32, min, Bool-cases, aligned,
}
use native.Mathlib.Decide.{dec_lt}
use saoirse.Prelude.Buffers.{Buffer, blit, fill_zero, copy, copy_inside}
use saoirse.Disk.Usb.{UsbEnv, write_bulk_msg, in_region}
use saoirse.Disk.Storage.{
  UsbStorage, csw_size, cbw_size, chunk_max, is_good_status, bulk, transfer_chunks, read_status,
  transfer_data, scsi_transfer, command_wrapper, Done,
}
use saoirse.Disk.Storage.Transfer.{SameButBuffer}

-- A device whose output endpoint takes what it is sent, and whose input endpoint answers with the
-- bytes that lie ahead.
pub record IsStream (U : UsbEnv) (dev out inward : ℕ) : Type 0 where
  pub ahead : U.World → Buffer
  pub sends : (n : ℕ) (b : Buffer) (w : U.World) → (U.bulk_transfer dev out n b w).0 ≡ pos n
  pub receives : (n : ℕ) (b : Buffer) (w : U.World) → (U.bulk_transfer dev inward n b w).0 ≡ pos n
  pub contents :
      (n x : ℕ) (b : Buffer) (w : U.World)
      → x < n
      → (U.bulk_transfer dev inward n b w).1 x ≡ ahead w x
  pub moves :
      (n x : ℕ) (b : Buffer) (w : U.World)
      → ahead (U.bulk_transfer dev inward n b w).2 x ≡ ahead w (n + x)

-- The buffer of the storage is where transfers may go.
abbrev pub HasBuffer : UsbStorage → Type 0
HasBuffer s = (in_region s.address ≡ true) × (aligned s.address 32 ≡ true)

pub is_good_status-agree :
    (tag : ℕ) (b c : Buffer)
    → ((x : ℕ) → x < 0xd → b x ≡ c x)
    → is_good_status tag b ≡ is_good_status tag c
unfolding is_good_status
is_good_status-agree tag b c h = ground (
  arith,
  h 0 (omega arith),
  h 1 (omega arith),
  h 2 (omega arith),
  h 3 (omega arith),
  h 4 (omega arith),
  h 5 (omega arith),
  h 6 (omega arith),
  h 7 (omega arith),
  h 8 (omega arith),
  h 9 (omega arith),
  h 0xA (omega arith),
  h 0xB (omega arith),
  h 0xC (omega arith),
)

-- The command as it is sent.
abbrev pub sent_command : Bool → ℕ → ℕ → List ℕ → UsbStorage → Buffer
sent_command is_write size lun cb s =
    blit (fill_zero s.buffer 0 csw_size) 0 (command_wrapper is_write (u32 (s.tag + 1)) size lun cb)

module _ (U : UsbEnv) (dev out inward : ℕ) (d : IsStream U dev out inward) where
  open U use {World}

  abbrev pub IsFor : UsbStorage → Type 0
  IsFor s = (s.id ≡ dev) × (s.out_endpoint ≡ out) × (s.in_endpoint ≡ inward) × HasBuffer s

  bulk-sends :
      (n : ℕ) (s : UsbStorage) (w : World)
      → IsFor s
      → 0 < n
      → n < 2 ^ 16
      → bulk U out n s w
        ≡ some (
          true,
          record s { buffer = (U.bulk_transfer dev out n s.buffer w).1 },
          (U.bulk_transfer dev out n s.buffer w).2,
        )
  unfolding bulk write_bulk_msg
  bulk-sends n s w for some_bytes short =
      ground (arith, for, some_bytes, short, d.sends n s.buffer w)

  bulk-receives :
      (n : ℕ) (s : UsbStorage) (w : World)
      → IsFor s
      → 0 < n
      → n < 2 ^ 16
      → bulk U inward n s w
        ≡ some (
          true,
          record s { buffer = (U.bulk_transfer dev inward n s.buffer w).1 },
          (U.bulk_transfer dev inward n s.buffer w).2,
        )
  unfolding bulk write_bulk_msg
  bulk-receives n s w for some_bytes short =
      ground (arith, for, some_bytes, short, d.receives n s.buffer w)

  -- What a read of `left` bytes into the data from `at` on gives.
  abbrev pub Streams : ℕ → ℕ → Buffer → UsbStorage → World → Done U → Type 0
  Streams at left bytes s w r =
      (bytes' : Buffer) × (s' : UsbStorage) × (w' : World) × (r ≡ some (true, bytes', s', w'))
      × SameButBuffer U s s'
      × ((x : ℕ) → d.ahead w' x ≡ d.ahead w (left + x))
      × ((x : ℕ) → x < left → bytes' (at + x) ≡ d.ahead w x)
      × ((x : ℕ) → (x < at) ⊎ (at + left ≤ x) → bytes' x ≡ bytes x)

  transfer_chunks-Streams :
      (rounds left at : ℕ) (bytes : Buffer) (s : UsbStorage) (w : World)
      → IsFor s
      → left + chunk_max ≤ rounds * chunk_max
      → Streams at left bytes s w (transfer_chunks U rounds false left at bytes s w)
  unfolding transfer_chunks
  transfer_chunks-Streams zero left at bytes s w for enough = absurd (omega (arith, enough))
  transfer_chunks-Streams (suc rounds) left at bytes s w for enough =
      elim (Bool-cases (left == 0)) [
        | inl done ↦ rw done (
          bytes,
          s,
          w,
          refl,
          refl,
          λ x. let none_left : x ≡ left + x = ground (arith, done) in ap (d.ahead w) none_left,
          λ x lt. absurd (ground (arith, lt, done)),
          λ x o. refl,
        )
        | inr more ↦
            let n = min left chunk_max in
            let e = bulk-receives n s w for (ground (arith, more)) (omega arith) in
            let (ret, b, w2) = U.bulk_transfer dev inward n s.buffer w in
            let s2 : UsbStorage = record s { buffer = b } in
            let (bytes', s', w', eq, same, moved, later, outside) =
              transfer_chunks-Streams rounds (left - n) (at + n) (copy bytes at b 0 n) s2 w2 for
                (ground (arith, more, enough)) in
            let step : bulk U s.in_endpoint n s w ≡ some (true, s2, w2) =
              ap (λ p. bulk U p n s w) for.2 ∙ e in
            let inside : (x : ℕ) → x < left → bytes' (at + x) ≡ d.ahead w x = λ x lt.
              elim (dec_lt x n) [
                | yes early ↦ ground (
                  arith,
                  outside (at + x),
                  d.contents n x s.buffer w early,
                  early,
                  copy_inside bytes b at 0 n x early,
                )
                | no late ↦
                    let to : at + n + (x - n) ≡ at + x = omega (arith, late) in
                    let from : n + (x - n) ≡ x = omega (arith, late) in
                    ap bytes' (sym to)
                    ∙ later (x - n) (omega (arith, late, lt))
                    ∙ d.moves n (x - n) s.buffer w
                    ∙ ap (d.ahead w) from
              ] in
            let whole : (x : ℕ) → n + (left - n + x) ≡ left + x = λ x. omega arith in
            rw more (
              rw step (
                bytes',
                s',
                w',
                eq,
                ground (arith, same),
                λ x. moved x ∙ d.moves n (left - n + x) s.buffer w ∙ ap (d.ahead w) (whole x),
                inside,
                λ x o. ground (arith, o, outside x, more),
              ))
      ]

  read_status-Streams :
      (bytes : Buffer) (s : UsbStorage) (w : World)
      → IsFor s
      → (s' : UsbStorage) × (w' : World) × (read_status U bytes s w
          ≡ some (is_good_status s.tag (d.ahead w), bytes, s', w'))
  unfolding read_status
  read_status-Streams bytes s w for =
      let cleared = fill_zero s.buffer 0 cbw_size in
      let s1 : UsbStorage = record s { buffer = cleared } in
      let e : bulk U s1.in_endpoint cbw_size s1 w ≡ _ =
        ap (λ p. bulk U p cbw_size s1 w) for.2
        ∙ bulk-receives cbw_size s1 w for (omega arith) (omega arith) in
      let (ret, b, w') = U.bulk_transfer dev inward cbw_size cleared w in
      let s2 : UsbStorage = record s { buffer = b } in
      let good =
        is_good_status-agree s.tag b (d.ahead w) (λ x lt. d.contents cbw_size x cleared w lt) in
      let run : read_status U bytes s w ≡ some (is_good_status s.tag b, bytes, s2, w') =
        ground (arith, e) in
      (s2, w', run ∙ ap (λ f. some (f, bytes, s2, w')) good)

  IsFor-same : (s s' : UsbStorage) → IsFor s → SameButBuffer U s s' → IsFor s'
  IsFor-same s s' for same = (
    ground (arith, for, same),
    ground (arith, for, same),
    ground (arith, for, same),
    ground (arith, for, same),
  )

  -- The world once the device has a command to read.
  abbrev pub asked : ℕ → ℕ → List ℕ → UsbStorage → World → World
  asked size lun cb s w = (U.bulk_transfer dev out csw_size (sent_command false size lun cb s) w).2

  -- From a device that takes what it is sent and answers with the bytes that lie ahead, by a storage
  -- of this device whose buffer is aligned and in the region for transfers, and a command block of 1
  -- to 16 bytes for a unit up to 16: a read of `size` bytes, more than none, in as many chunks as that
  -- takes, fills the data with the next `size` bytes from after the command, leaves the rest of the
  -- data as it was, and succeeds exactly where the 13 bytes that follow are a good status for the
  -- command's tag.
  pub scsi_transfer_streams :
      (size lun : ℕ) (bytes : Buffer) (cb : List ℕ) (s : UsbStorage) (w : World)
      → IsFor s
      → 0 < size
      → lun ≤ 16
      → 0 < length cb
      → length cb ≤ 16
      → (bytes' : Buffer) × (s' : UsbStorage) × (w' : World) × (scsi_transfer U false size true
            bytes lun cb s w
          ≡ some (
            is_good_status (u32 (s.tag + 1)) (λ x. d.ahead (asked size lun cb s w) (size + x)),
            bytes',
            s',
            w',
          ))
        × ((x : ℕ) → x < size → bytes' x ≡ d.ahead (asked size lun cb s w) x)
        × ((x : ℕ) → size ≤ x → bytes' x ≡ bytes x)
  unfolding scsi_transfer transfer_data
  scsi_transfer_streams size lun bytes cb s w for some_bytes lun_in some_cb cb_in =
      let tag = u32 (s.tag + 1) in
      let b = sent_command false size lun cb s in
      let s1 : UsbStorage = record s { tag = tag; buffer = b } in
      let e1 : bulk U s1.out_endpoint csw_size s1 w ≡ _ =
        ap (λ p. bulk U p csw_size s1 w) for.1
        ∙ bulk-sends csw_size s1 w for (omega arith) (omega arith) in
      let (ret, b2, w2) = U.bulk_transfer dev out csw_size b w in
      let s2 : UsbStorage = record s1 { buffer = b2 } in
      let (bytes', s3, w3, eq, same, moved, inside, outside) =
        transfer_chunks-Streams (size / chunk_max + 2) size 0 bytes s2 w2 for (omega arith) in
      let (s4, w4, status) = read_status-Streams bytes' s3 w3 (IsFor-same s2 s3 for same) in
      let tag_same : s3.tag ≡ tag = ap (λ t. t.tag) same in
      let good : is_good_status s3.tag (d.ahead w3)
          ≡ is_good_status tag (λ x. d.ahead w2 (size + x)) =
        ap (λ t. is_good_status t (d.ahead w3)) tag_same
        ∙ is_good_status-agree tag (d.ahead w3) (λ x. d.ahead w2 (size + x)) (λ x lt. moved x) in
      let status' : read_status U bytes' s3 w3
          ≡ some (is_good_status tag (λ x. d.ahead w2 (size + x)), bytes', s4, w4) =
        status ∙ ap (λ f. some (f, bytes', s4, w4)) good in
      let transferred : transfer_data U false size bytes s2 w2
          ≡ some (is_good_status tag (λ x. d.ahead w2 (size + x)), bytes', s4, w4) =
        ground (arith, eq, status') in
      let run : scsi_transfer U false size true bytes lun cb s w
          ≡ some (is_good_status tag (λ x. d.ahead w2 (size + x)), bytes', s4, w4) =
        ground (arith, e1, transferred, some_bytes, lun_in, some_cb, cb_in) in
      (
        bytes',
        s4,
        w4,
        run,
        λ x lt. let here : x ≡ 0 + x = omega arith in ap bytes' here ∙ inside x lt,
        λ x out_of. outside x (inr (omega (arith, out_of))),
      )
