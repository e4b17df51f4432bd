-- ===== src/Disk/DeviceMgr/Induct.antt =====
-- ios/Disk/DeviceMgr.cpp: a property that every part of a step keeps holds of every table that the
-- program reaches.
use saoirse.Prelude.{
  ℕ, zero, suc, ◌+◌, inl, inr, subst, Bool, true, false, not, none, some, ltb, ◌==◌, Bool-cases,
  Option-cases, eq_ℤ,
}
use saoirse.Disk.Usb.{DeviceEntry, DeviceInfo}
use saoirse.Disk.UsbError
use saoirse.Disk.DeviceMgr.{
  ManagerEnv, World, DeviceTable, device_count, update_handle, update_handles,
}
use saoirse.Disk.DeviceMgr.Calls.{SameSlots, set_error-SameSlots, device_call-SameSlots}
use saoirse.Disk.DeviceMgr.Usb.{
  Event, timer, device_change, first_from, scan_handle, scan_handles, max_devices, use_slot,
  identify, find_info, is_mass_storage, add_device, add_devices, usb_change, run_round, set_usb,
  Changed,
}
use saoirse.Disk.DeviceMgr.Life.{new_table, Step, round, calls, fails, Reachable, made, goes}

module _ (E : ManagerEnv) (P : DeviceTable → Type 0) where
  -- The parts of a change of the USB devices keep the property.
  pub record IsKeptByChange : Type 0 where
    pub in_scan :
        (entries : ℕ → DeviceEntry) (count i : ℕ) (s : DeviceTable) (found : ℕ → Bool)
        → P s
        → P (scan_handle entries count i s found).0
    pub in_add :
        (entry : DeviceEntry) (j : ℕ) (s : DeviceTable)
        → P s
        → P (set_usb s j (record { in_use = true; usb_id = entry.dev_id; int_id = device_count }))
    pub in_use :
        (j : ℕ) (info : DeviceInfo) (s : DeviceTable) (w : World E)
        → P s
        → P (use_slot E j info s w).0

  -- All parts of the steps do.
  pub record IsKept : Type 0 where
    pub at_start : (memory : DeviceTable) → P (new_table memory)
    pub in_pass : (k : ℕ) (s : DeviceTable) (w : World E) → P s → P (update_handle E k s w).0
    pub in_call : (s s' : DeviceTable) → SameSlots s s' → P s → P s'
    pub in_change : IsKeptByChange

  -- Where a change of the USB devices returns, the property holds still.
  abbrev pub Holds : Changed E → Type 0
  Holds none = Unit {0}
  Holds (some (s, w)) = P s

  module _ (kept : IsKeptByChange) where
    scan_handles-kept :
        (entries : ℕ → DeviceEntry) (count rounds i : ℕ) (s : DeviceTable) (found : ℕ → Bool)
        → P s
        → P (scan_handles entries count rounds i s found).0
    unfolding scan_handles
    scan_handles-kept entries count zero i s found p = p
    scan_handles-kept entries count (suc rounds) i s found p =
        let (s1, found1) = scan_handle entries count i s found in
        scan_handles-kept entries count rounds (i + 1) s1 found1
          (kept.in_scan entries count i s found p)

    identify-kept :
        (entry : DeviceEntry) (j : ℕ) (s : DeviceTable) (w : World E)
        → P s
        → Holds (identify E entry j s w)
    unfolding identify
    identify-kept entry j s w p =
        let (got, w') = find_info E entry.alt_set_count 0 entry.dev_id w in
        elim (Option-cases got) [
          | inl nothing ↦ rw (identify, nothing) p
          | inr (info, e) ↦ elim (Bool-cases (not (info.dev_id == entry.dev_id))) [
            | inl wrong ↦ rw (identify, e) (rw wrong tt)
            | inr right ↦ elim (Bool-cases (not (is_mass_storage info))) [
              | inl other ↦ rw (identify, e) (rw right (rw other p))
              | inr fits ↦ rw (identify, e) (rw right (rw fits (kept.in_use j info s w' p)))
            ]
          ]
        ]

    add_device-kept :
        (entry : DeviceEntry) (s : DeviceTable) (w : World E) → P s → Holds (add_device E entry s w)
    unfolding add_device
    add_device-kept entry s w p =
        elim (Option-cases (first_from (λ j. not (s.usb_devices j).in_use) max_devices 0)) [
          | inl full ↦ rw (add_device, full) tt
          | inr (j, free) ↦
              let s1 =
                set_usb s j
                  (record { in_use = true; usb_id = entry.dev_id; int_id = device_count }) in
              let p1 : P s1 = kept.in_add entry j s p in
              let (ret, w') = E.usb.attach entry.dev_id w in
              elim (Bool-cases (eq_ℤ ret UsbError.ok)) [
                | inl attached ↦
                    rw (add_device, free) (rw attached (identify-kept entry j s1 w' p1))
                | inr refused ↦ rw (add_device, free) (rw refused p1)
              ]
        ]

    add_devices-kept :
        (entries : ℕ → DeviceEntry) (found : ℕ → Bool) (rounds i : ℕ) (s : DeviceTable)
        (w : World E)
        → P s
        → Holds (add_devices E entries found rounds i s w)
    unfolding add_devices
    add_devices-kept entries found zero i s w p = p
    add_devices-kept entries found (suc rounds) i s w p = elim (Bool-cases (found i)) [
      | inl known ↦ rw (add_devices, known) (add_devices-kept entries found rounds (i + 1) s w p)
      | inr new ↦
          let added = add_device-kept (entries i) s w p in
          elim (Option-cases (add_device E (entries i) s w)) [
            | inl stop ↦ rw (add_devices, new) (rw stop tt)
            | inr ((s1, w1), e) ↦
                rw (add_devices, new)
                  (rw e (add_devices-kept entries found rounds (i + 1) s1 w1 (subst Holds e added)))
          ]
    ]

    pub usb_change-kept :
        (entries : ℕ → DeviceEntry) (count : ℕ) (s : DeviceTable) (w : World E)
        → P s
        → Holds (usb_change E entries count s w)
    unfolding usb_change
    usb_change-kept entries count s w p =
        let (s1, found) = scan_handles entries count max_devices 0 s (λ x. false) in
        let p1 = scan_handles-kept entries count max_devices 0 s (λ x. false) p in
        elim (Bool-cases (ltb max_devices count)) [
          | inl many ↦ rw (usb_change, many) tt
          | inr few ↦ rw (usb_change, few) (add_devices-kept entries found count 0 s1 w p1)
        ]

  module _ (kept : IsKept) where
    update_handles-kept :
        (rounds k : ℕ) (s : DeviceTable) (w : World E) → P s → P (update_handles E rounds k s w).0
    unfolding update_handles
    update_handles-kept zero k s w p = p
    update_handles-kept (suc rounds) k s w p =
        let (s1, w1) = update_handle E k s w in
        update_handles-kept rounds (k + 1) s1 w1 (kept.in_pass k s w p)

    run_round-kept : (e : Event E) (s : DeviceTable) (w : World E) → P s → Holds (run_round E e s w)
    unfolding run_round
    run_round-kept timer s w p = update_handles-kept device_count 0 s w p
    run_round-kept (device_change entries count) s w p =
        let changed = usb_change-kept kept.in_change entries count s w p in
        elim (Option-cases (usb_change E entries count s w)) [
          | inl stop ↦ rw (run_round, stop) tt
          | inr ((s1, w1), e) ↦
              rw (run_round, e) (update_handles-kept device_count 0 s1 w1 (subst Holds e changed))
        ]

    Step-kept : (s s' : DeviceTable) → Step E s s' → P s → P s'
    Step-kept s s' (round e w w' h) p = subst Holds h (run_round-kept e s w p)
    Step-kept s s' (calls c k fine b b' w w' h) p =
        kept.in_call s s' (device_call-SameSlots E c k b b' s s' w w' fine h) p
    Step-kept s s' (fails k) p = kept.in_call s s' (set_error-SameSlots k s) p

    pub Reachable-kept : (s : DeviceTable) → Reachable E s → P s
    Reachable-kept s (made memory) = kept.at_start memory
    Reachable-kept s (goes before step) = Step-kept _ s step (Reachable-kept _ before)
