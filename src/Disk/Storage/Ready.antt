-- ===== src/Disk/Storage/Ready.antt =====
-- ios/Disk/USBStorage.cpp: when `Init` ends without a failed assertion.
use saoirse.Prelude.{
  ℕ, zero, suc, ◌+◌, ◌%◌, ◌≤◌, ◌<◌, ◌≡◌, ◌≢◌, ◌∙◌, ◌⊎◌, inl, inr, arith, refl, Bool, true, false,
  not, ◌&&◌, ◌||◌, Option, none, some, ◌∷◌, ltb, leb, eq_ℤ, replicate, Bool-cases, Option-cases,
}
use saoirse.Prelude.Buffers.{Buffer, word}
use saoirse.Disk.UsbError
use saoirse.Disk.Usb.{UsbEnv, write_ctrl_msg, in_region, type_class_interface_in}
use saoirse.Disk.Storage.{
  UsbStorage, find_lun, get_lun_count, read_capacity, zeroes, scsi_read_capacity_10,
}
use saoirse.Disk.Storage.Stream.{HasBuffer}
use saoirse.Disk.Storage.Init.{
  Found, take_endpoint, find_endpoints, init_capacity, init_lun_count, init,
}
use saoirse.Disk.Storage.Total.{
  Answers, Answers-cases, Returns-cases, scsi_transfer-Returns, test_unit_ready-Returns,
  try_lun-Answers,
}

take_endpoint-address :
    (i : ℕ) (f : Found) → (take_endpoint i f).storage.address ≡ f.storage.address
unfolding take_endpoint
take_endpoint-address i f = ground arith

find_endpoints-address :
    (rounds i : ℕ) (f : Found) → (find_endpoints rounds i f).storage.address ≡ f.storage.address
unfolding find_endpoints
find_endpoints-address zero i f = refl
find_endpoints-address (suc rounds) i f =
    find_endpoints-address rounds (i + 1) (take_endpoint i f) ∙ take_endpoint-address i f

module _ (U : UsbEnv) where
  open U use {World}

  -- A search that returns finds nothing, or a number that its test allows.
  abbrev Finds : (ℕ → Type 0) → Option (Option ℕ × UsbStorage × World) → Type 0
  Finds IsFine r =
      (s : UsbStorage) × (w : World) × ((r ≡ some (none, s, w))
        ⊎ ((n : ℕ) × (r ≡ some (some n, s, w)) × IsFine n))
      × HasBuffer s

  find_lun-Finds :
      (left lun : ℕ) (s : UsbStorage) (w : World)
      → HasBuffer s
      → left + lun ≤ 16
      → Finds (λ n. n < 16) (find_lun U left lun s w)
  unfolding find_lun
  find_lun-Finds zero lun s w has lun_in = (s, w, inl refl, has)
  find_lun-Finds (suc left) lun s w has lun_in =
      elim (Answers-cases U _ (try_lun-Answers U 5 lun s w has (omega (arith, lun_in)))) [
        | inl (s1, w1, e, has1) ↦
            rw (find_lun, e) (s1, w1, inr (lun, refl, omega (arith, lun_in)), has1)
        | inr (s1, w1, e, has1) ↦
            rw (find_lun, e) (find_lun-Finds left (lun + 1) s1 w1 has1 (omega (arith, lun_in)))
      ]

  write_ctrl_msg-returns :
      (address dev_id request_type request value index n : ℕ) (b : Buffer) (w : World)
      → in_region address ≡ true
      → write_ctrl_msg U address dev_id request_type request value index n b w ≢ none
  unfolding write_ctrl_msg
  write_ctrl_msg-returns address dev_id request_type request value index n b w inside stop =
      ground (arith, inside, stop)

  get_lun_count-Finds :
      (s : UsbStorage) (w : World) → HasBuffer s → Finds (λ n. n ≤ 16) (get_lun_count U s w)
  unfolding get_lun_count
  get_lun_count-Finds s w has =
      elim (Option-cases
        (write_ctrl_msg U s.address s.id type_class_interface_in 0xfe 0 s.interface 1 s.buffer w)) [
          | inl stop ↦ absurd (
              write_ctrl_msg-returns s.address s.id type_class_interface_in 0xfe 0 s.interface 1
                s.buffer w has.0 stop)
          | inr ((ret, b, w'), e) ↦
              let count = (b 0 + 1) % 256 in
              elim (Bool-cases (eq_ℤ ret UsbError.ok && (leb 1 count && leb count 16))) [
                | inl fine ↦ (
                  record s { buffer = b },
                  w',
                  inr (count, ground (arith, e, fine), ground (arith, fine)),
                  has,
                )
                | inr bad ↦ (record s { buffer = b }, w', inl (ground (arith, e, bad)), has)
              ]
        ]

  init_capacity-Answers :
      (lun : ℕ) (s : UsbStorage) (w : World)
      → HasBuffer s
      → lun ≤ 16
      → Answers U (init_capacity U lun s w)
  unfolding init_capacity read_capacity
  init_capacity-Answers lun s w has lun_in =
      elim (Returns-cases U _ (
        scsi_transfer-Returns U false true 8 lun (zeroes U) (scsi_read_capacity_10 ∷ replicate 9 0)
          s w has (refl, lun_in, omega arith, omega arith))) [
            | inr (b, s1, w1, e, has1) ↦
                rw (init_capacity, read_capacity, e) (false, s1, w1, refl, has1)
            | inl (b, s1, w1, e, has1) ↦
                rw (init_capacity, read_capacity, e)
                  (elim (Returns-cases U _ (
                    test_unit_ready-Returns U lun (record s1 { block_size = word b 4 }) w1 has1
                      lun_in)) [
                        | inr (b2, s2, w2, e2, has2) ↦ rw e2 (false, s2, w2, refl, has2)
                        | inl (b2, s2, w2, e2, has2) ↦
                            rw e2 (true, record s2 { is_valid = true }, w2, refl, has2)
                      ])
          ]

  init_lun_count-Answers :
      (s : UsbStorage) (w : World) → HasBuffer s → Answers U (init_lun_count U s w)
  unfolding init_lun_count
  init_lun_count-Answers s w has =
      let (s1, w1, counted, has1) = get_lun_count-Finds s w has in
      elim counted [
        | inl e ↦ rw (init_lun_count, e) (false, s1, w1, refl, has1)
        | inr (count, e, few) ↦
            let (s2, w2, found, has2) = find_lun-Finds count 0 s1 w1 has1 (omega (arith, few)) in
            elim found [
              | inl e2 ↦
                  rw (init_lun_count, e) (rw e2 (false, record s2 { lun = count }, w2, refl, has2))
              | inr (lun, e2, lun_in) ↦
                  rw (init_lun_count, e)
                    (rw e2 (
                      init_capacity-Answers lun (record s2 { lun = lun }) w2 has2
                        (omega (arith, lun_in))))
            ]
      ]

  init_few_endpoints :
      (s : UsbStorage) (w : World)
      → HasBuffer s
      → s.info.num_endpoints ≤ 16
      → (fine : Bool) × (s' : UsbStorage) × (w' : World) × (init U s w ≡ some (fine, s', w'))
  unfolding init
  init_few_endpoints s w has few =
      let start : Found = record { storage = s; out_found = false; in_found = false } in
      let f = find_endpoints s.info.num_endpoints 0 start in
      let s1 : UsbStorage = record (f.storage) { id = s.info.dev_id; interface = s.info.if_num } in
      let stays = find_endpoints-address s.info.num_endpoints 0 start in
      let has1 : HasBuffer s1 = (ground (arith, has, stays), ground (arith, has, stays)) in
      let in_range : ltb 16 s.info.num_endpoints ≡ false = ground (arith, few) in
      elim (Bool-cases (not f.out_found || not f.in_found)) [
        | inl short ↦ rw (init, in_range) (rw short (false, f.storage, w, refl))
        | inr found ↦
            let (fine, s2, w2, e, has2) = init_lun_count-Answers s1 w has1 in
            rw (init, in_range) (rw found (fine, s2, w2, e))
      ]

  -- For a storage whose buffer is aligned to 32 and in the region for transfers, the descriptor alone
  -- decides whether `Init` returns: with at most 16 endpoints, whatever the device sends in the
  -- transfers, every loop is at its end, no assertion fails, and there are an answer, a storage and a
  -- world that it ends with; with more than 16 endpoints an assertion fails.
  pub init_answers :
      (s : UsbStorage) (w : World)
      → HasBuffer s
      → ((s.info.num_endpoints ≤ 16)
          × ((fine : Bool) × (s' : UsbStorage) × (w' : World) × (init U s w ≡ some (fine, s', w'))))
        ⊎ ((16 < s.info.num_endpoints) × (init U s w ≡ none))
  init_answers s w has = elim (Bool-cases (ltb 16 s.info.num_endpoints)) [
    | inl many ↦ inr (ground (arith, many), unfold init in rw many refl)
    | inr few ↦ inl (ground (arith, few), init_few_endpoints s w has (ground (arith, few)))
  ]
