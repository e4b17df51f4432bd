-- ===== src/Disk/DeviceMgr/Owners.antt =====
-- ios/Disk/DeviceMgr.cpp: which USB device a slot of the table belongs to.
use saoirse.Prelude.{
  ℕ, ◌<◌, ◌≡◌, ◌≢◌, ◌∙◌, inl, inr, arith, sym, subst, Bool, true, false, not, Bool-cases,
  Option-cases,
}
use saoirse.Disk.Usb.{DeviceEntry, DeviceInfo}
use saoirse.Disk.DeviceMgr.{ManagerEnv, World, DeviceTable, device_count, update_handle}
use saoirse.Disk.DeviceMgr.Pass.{Mounts, update_handle_refines}
use saoirse.Disk.DeviceMgr.Calls.{SameSlots}
use saoirse.Disk.DeviceMgr.Usb.{first_from, scan_handle, find_entry, use_slot, set_usb}
use saoirse.Disk.DeviceMgr.Life.{new_table, Reachable}
use saoirse.Disk.DeviceMgr.Induct.{IsKept, Reachable-kept}
use saoirse.Disk.DeviceMgr.Trace.{first_from-found}
use saoirse.Disk.DeviceMgr.Notices.{same_or_other}
use saoirse.Disk.DeviceMgr.{is_sd_card}

-- A USB handle that is in use, with a slot of the table.
abbrev pub Owns : DeviceTable → ℕ → ℕ → Type 0
Owns s i k = ((s.usb_devices i).in_use ≡ true) × ((s.usb_devices i).int_id ≡ k) × (k < device_count)

pub record IsOwned (s : DeviceTable) : Type 0 where
  pub in_service :
      (i k : ℕ)
      → Owns s i k
      → ((s.devices k).enabled ≡ true)
        × ((s.devices k).inserted ≡ true)
        × (is_sd_card (s.devices k).disk ≡ false)
  pub single : (i j k : ℕ) → Owns s i k → Owns s j k → i ≡ j

new_table-IsOwned : (memory : DeviceTable) → IsOwned (new_table memory)
unfolding new_table
new_table-IsOwned memory = record {
  in_service = λ i k o. absurd (ground (arith, o));
  single = λ i j k o. absurd (ground (arith, o));
}

SameSlots-IsOwned : (s s' : DeviceTable) → SameSlots s s' → IsOwned s → IsOwned s'
SameSlots-IsOwned s s' same a =
    let owns : (i k : ℕ) → Owns s' i k → Owns s i k = λ i k o.
      subst (λ u. ((u i).in_use ≡ true) × ((u i).int_id ≡ k) × (k < device_count)) same.usb_devices
        o in
    record {
      in_service = λ i k o.
          let (on, there, usb) = a.in_service i k (owns i k o) in
          (same.enabled k ∙ on, same.inserted k ∙ there, same.kind k ∙ usb);
      single = λ i j k o o2. a.single i j k (owns i k o) (owns j k o2);
    }

set_usb-IsOwned :
    (entry : DeviceEntry) (j : ℕ) (s : DeviceTable)
    → IsOwned s
    → IsOwned (set_usb s j (record { in_use = true; usb_id = entry.dev_id; int_id = device_count }))
set_usb-IsOwned entry j s a = record {
  in_service = λ i k o. elim (same_or_other i j) [
    | inl same ↦ absurd (ground (arith, o, same))
    | inr other ↦ a.in_service i k (ground (arith, o, other), ground (arith, o, other), o.2)
  ];
  single = λ i i2 k o o2.
      a.single i i2 k (ground (arith, o), ground (arith, o), o.2)
        (ground (arith, o2), ground (arith, o2), o2.2);
}

scan_handle-IsOwned :
    (entries : ℕ → DeviceEntry) (count i : ℕ) (s : DeviceTable) (found : ℕ → Bool)
    → IsOwned s
    → IsOwned (scan_handle entries count i s found).0
unfolding scan_handle
scan_handle-IsOwned entries count i s found a =
    let s' = (scan_handle entries count i s found).0 in
    elim (Option-cases (find_entry entries count (s.usb_devices i))) [
      | inl gone ↦
          let owns : (x k : ℕ) → Owns s' x k → Owns s x k =
            λ x k o. (ground (arith, o, gone), ground (arith, o, gone), o.2) in
          record {
            in_service = λ x k o.
                let (on, there, usb) = a.in_service x k (owns x k o) in
                let apart : (s.usb_devices i).in_use ≡ true → (s.usb_devices i).int_id ≢ k =
                  λ used e.
                    let same = a.single x i k (owns x k o) (used, e, o.2) in
                    absurd (ground (arith, o, gone, same, used)) in
                elim (Bool-cases (s.usb_devices i).in_use) [
                  | inr free ↦ (
                    ground (arith, free, on),
                    ground (arith, free, there),
                    ground (arith, free, usb),
                  )
                  | inl used ↦
                      let other = apart used in
                      (
                        ground (arith, gone, used, other, on),
                        ground (arith, gone, used, other, there),
                        ground (arith, gone, used, other, usb),
                      )
                ];
            single = λ x y k o o2. a.single x y k (owns x k o) (owns y k o2);
          }
      | inr (j, here) ↦
          let owns : (x k : ℕ) → Owns s' x k → Owns s x k =
            λ x k o. (ground (arith, o, here), ground (arith, o, here), o.2) in
          record {
            in_service = λ x k o.
                let (on, there, usb) = a.in_service x k (owns x k o) in
                (ground (arith, on, here), ground (arith, there, here), ground (arith, usb, here));
            single = λ x y k o o2. a.single x y k (owns x k o) (owns y k o2);
          }
    ]

module _ (E : ManagerEnv) where
  use_slot-IsOwned :
      (j : ℕ) (info : DeviceInfo) (s : DeviceTable) (w : World E)
      → IsOwned s
      → IsOwned (use_slot E j info s w).0
  unfolding use_slot is_sd_card
  use_slot-IsOwned j info s w a =
      let s' = (use_slot E j info s w).0 in
      elim (Option-cases (first_from (λ k. not (s.devices k).enabled) device_count 0)) [
        | inl full ↦ rw (use_slot, full) a
        | inr (k, free) ↦
            let off = (first_from-found (λ x. not (s.devices x).enabled) device_count 0 k free).0 in
            let before : (i x : ℕ) → i ≢ j → Owns s' i x → Owns s i x × (x ≢ k) = λ i x other o.
              let was : Owns s i x =
                (ground (arith, free, o, other), ground (arith, free, o, other), o.2) in
              (was, λ e. absurd (ground (arith, off, e, (a.in_service i x was).0))) in
            let mine : (x : ℕ) → Owns s' j x → x ≡ k = λ x o. ground (arith, free, o) in
            record {
              in_service = λ i x o. elim (same_or_other i j) [
                | inl same ↦
                    let here = mine x (subst (λ y. Owns s' y x) same o) in
                    (
                      ground (arith, free, here),
                      ground (arith, free, here),
                      ground (arith, free, here),
                    )
                | inr other ↦
                    let (was, apart) = before i x other o in
                    let (on, there, usb) = a.in_service i x was in
                    (
                      ground (arith, free, apart, on),
                      ground (arith, free, apart, there),
                      ground (arith, free, apart, usb),
                    )
              ];
              single = λ i i2 x o o2. elim (same_or_other i j) [
                | inl same ↦ elim (same_or_other i2 j) [
                  | inl same2 ↦ same ∙ sym same2
                  | inr other2 ↦
                      absurd ((before i2 x other2 o2).1 (mine x (subst (λ y. Owns s' y x) same o)))
                ]
                | inr other ↦ elim (same_or_other i2 j) [
                  | inl same2 ↦
                      absurd ((before i x other o).1 (mine x (subst (λ y. Owns s' y x) same2 o2)))
                  | inr other2 ↦ a.single i i2 x (before i x other o).0 (before i2 x other2 o2).0
                ]
              ];
            }
      ]

  update_handle-IsOwned :
      Mounts E
      → (k : ℕ) (s : DeviceTable) (w : World E) → IsOwned s
      → IsOwned (update_handle E k s w).0
  update_handle-IsOwned m k s w a =
      let (here, others, usb, sent) = update_handle_refines E k s w m in
      let s' = (update_handle E k s w).0 in
      let owns : (i x : ℕ) → Owns s' i x → Owns s i x = λ i x o.
        subst (λ u. ((u i).in_use ≡ true) × ((u i).int_id ≡ x) × (x < device_count)) usb o in
      record {
        in_service = λ i x o.
            let (on, there, is_usb) = a.in_service i x (owns i x o) in
            elim (same_or_other x k) [
              | inl same ↦ (
                ground (arith, same, on, there, is_usb, here),
                ground (arith, same, on, there, is_usb, here),
                ground (arith, same, on, there, is_usb, here),
              )
              | inr other ↦
                  let stays = others x other in
                  (
                    ground (arith, stays, on),
                    ground (arith, stays, there),
                    ground (arith, stays, is_usb),
                  )
            ];
        single = λ i j x o o2. a.single i j x (owns i x o) (owns j x o2);
      }

  IsOwned-kept : Mounts E → IsKept E IsOwned
  IsOwned-kept m = record {
    at_start = new_table-IsOwned;
    in_pass = update_handle-IsOwned m;
    in_call = SameSlots-IsOwned;
    in_change = record {
      in_scan = scan_handle-IsOwned;
      in_add = set_usb-IsOwned;
      in_use = use_slot-IsOwned;
    };
  }

  -- In every run of the manager where FatFs mounts and unmounts: two USB handles in use never have the
  -- same slot, and the slot that a handle has is enabled, inserted and of a USB storage.
  pub slots_distinct :
      (i j k : ℕ) (s : DeviceTable)
      → Mounts E
      → Reachable E s
      → Owns s i k
      → Owns s j k
      → (i ≡ j)
        × ((s.devices k).enabled ≡ true)
        × ((s.devices k).inserted ≡ true)
        × (is_sd_card (s.devices k).disk ≡ false)
  slots_distinct i j k s m run o o2 =
      let a = Reachable-kept E IsOwned (IsOwned-kept m) s run in
      let (on, there, usb) = a.in_service i k o in (a.single i j k o o2, on, there, usb)
