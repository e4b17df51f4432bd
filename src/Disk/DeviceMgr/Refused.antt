-- ===== src/Disk/DeviceMgr/Refused.antt =====
-- ios/Disk/DeviceMgr.cpp: a device in error is refused until it is taken out.
use saoirse.Prelude.{
  ℕ, ◌<◌, ◌≡◌, ◌≢◌, inl, inr, arith, subst, ◌∙◌, Bool, true, false, not, some, Option-cases,
}
use saoirse.Prelude.Buffers.{Buffer}
use saoirse.Disk.Usb.{DeviceEntry, DeviceInfo}
use saoirse.Disk.DeviceMgr.{ManagerEnv, World, DeviceTable, device_count, update_handles}
use saoirse.Disk.DeviceMgr.Pass.{Mounts, update_handles-each}
use saoirse.Disk.DeviceMgr.Usb.{
  Event, timer, device_change, first_from, find_entry, scan_handle, use_slot, run_round, usb_change,
}
use saoirse.Disk.DeviceMgr.Calls.{
  Call, SameSlots, device_call, device_call-SameSlots, device_call-fails, device_call-refused,
  set_error-SameSlots,
}
use saoirse.Disk.DeviceMgr.Life.{Step, round, calls, fails}
use saoirse.Disk.DeviceMgr.Trace.{first_from-found}
use saoirse.Disk.DeviceMgr.Induct.{IsKeptByChange, Holds, usb_change-kept}

-- A device that is in use and in error.
abbrev InError : ℕ → DeviceTable → Type 0
InError k s = ((s.devices k).enabled ≡ true) × ((s.devices k).error ≡ true)

scan_handle-InError :
    (k : ℕ) (entries : ℕ → DeviceEntry) (count i : ℕ) (s : DeviceTable) (found : ℕ → Bool)
    → InError k s
    → InError k (scan_handle entries count i s found).0
unfolding scan_handle
scan_handle-InError k entries count i s found bad =
    elim (Option-cases (find_entry entries count (s.usb_devices i))) [
      | inl gone ↦ (ground (arith, bad, gone), ground (arith, bad, gone))
      | inr (j, known) ↦ (ground (arith, bad, known), ground (arith, bad, known))
    ]

SameSlots-InError : (k : ℕ) (s s' : DeviceTable) → SameSlots s s' → InError k s → InError k s'
SameSlots-InError k s s' same (on, bad) = (same.enabled k ∙ on, same.in_error k bad)

module _ (E : ManagerEnv) where
  -- A new device takes no slot that is in use.
  use_slot-InError :
      (k j : ℕ) (info : DeviceInfo) (s : DeviceTable) (w : World E)
      → InError k s
      → InError k (use_slot E j info s w).0
  unfolding use_slot
  use_slot-InError k j info s w (on, bad) =
      elim (Option-cases (first_from (λ x. not (s.devices x).enabled) device_count 0)) [
        | inl full ↦ rw (use_slot, full) (on, bad)
        | inr (x, free) ↦
            let off = (first_from-found (λ y. not (s.devices y).enabled) device_count 0 x free).0 in
            let other : k ≢ x = λ e. absurd (ground (arith, off, e, on)) in
            rw (use_slot, free) (ground (arith, other, on), ground (arith, other, bad))
      ]

  InError-kept : (k : ℕ) → IsKeptByChange E (InError k)
  InError-kept k = record {
    in_scan = scan_handle-InError k;
    in_add = λ entry j s bad. bad;
    in_use = use_slot-InError k;
  }

  -- A pass leaves a device in error so, or finds it out.
  update_handles-InError :
      (k : ℕ) (s : DeviceTable) (w : World E)
      → Mounts E
      → k < device_count
      → InError k s
      → ((update_handles E device_count 0 s w).0.devices k).inserted ≡ true
      → InError k (update_handles E device_count 0 s w).0
  update_handles-InError k s w m small bad there =
      let (card, failed, e) =
        update_handles-each E device_count 0 k s w m (omega arith) (omega (arith, small)) in
      (ground (arith, e, bad, there), ground (arith, e, bad, there))

  run_round-InError :
      (k : ℕ) (e : Event E) (s s' : DeviceTable) (w w' : World E)
      → Mounts E
      → k < device_count
      → InError k s
      → run_round E e s w ≡ some (s', w')
      → (s'.devices k).inserted ≡ true
      → InError k s'
  unfolding run_round
  run_round-InError k timer s s' w w' m small bad h there =
      let same : (update_handles E device_count 0 s w).0 ≡ s' = ground (arith, h) in
      subst (InError k) same
        (update_handles-InError k s w m small bad (ground (arith, same, there)))
  run_round-InError k (device_change entries count) s s' w w' m small bad h there =
      let changed = usb_change-kept E (InError k) (InError-kept k) entries count s w bad in
      elim (Option-cases (usb_change E entries count s w)) [
        | inl stop ↦ absurd (ground (arith, h, stop))
        | inr ((s1, w1), e) ↦
            let bad1 : InError k s1 = subst (Holds E (InError k)) e changed in
            let same : (update_handles E device_count 0 s1 w1).0 ≡ s' = ground (arith, h, e) in
            subst (InError k) same
              (update_handles-InError k s1 w1 m small bad1 (ground (arith, same, there)))
      ]

  -- Steps of the manager at the end of each of which a device is in.
  pub data StaysIn (k : ℕ) (s : DeviceTable) : DeviceTable → Type 0 where
    still : StaysIn k s s
    next :
        {t u : DeviceTable}
        → StaysIn k s t
        → Step E t u
        → (u.devices k).inserted ≡ true
        → StaysIn k s u

  Step-InError :
      (k : ℕ) (s s' : DeviceTable)
      → Mounts E
      → k < device_count
      → InError k s
      → Step E s s'
      → (s'.devices k).inserted ≡ true
      → InError k s'
  Step-InError k s s' m small bad (round e w w' h) there =
      run_round-InError k e s s' w w' m small bad h there
  Step-InError k s s' m small bad (calls c j fine b b' w w' h) there =
      SameSlots-InError k s s' (device_call-SameSlots E c j b b' s s' w w' fine h) bad
  Step-InError k s s' m small bad (fails j) there =
      SameSlots-InError k s s' (set_error-SameSlots j s) bad

  StaysIn-InError :
      (k : ℕ) (s s' : DeviceTable)
      → Mounts E
      → k < device_count
      → InError k s
      → StaysIn k s s'
      → InError k s'
  StaysIn-InError k s s' m small bad still = bad
  StaysIn-InError k s s' m small bad (next {t = t} before step there) =
      Step-InError k t s' m small (StaysIn-InError k s t m small bad before) step there

  -- Once a read, a write, an initialisation or a sync of an enabled device has failed, and after any
  -- steps of the manager (passes, changes of the USB devices, calls and errors of any device) at the
  -- end of each of which the device is recorded as in, every call on it fails at once, with no command
  -- sent and nothing changed, where FatFs mounts and unmounts.
  pub failed_device_refused :
      (c c2 : Call) (k : ℕ) (b b' b2 : Buffer) (s s' s2 : DeviceTable) (w w' w2 : World E)
      → Mounts E
      → k < device_count
      → (s.devices k).enabled ≡ true
      → device_call E c k b s w ≡ some (false, b', s', w')
      → StaysIn k s' s2
      → device_call E c2 k b2 s2 w2 ≡ some (false, b2, s2, w2)
  failed_device_refused c c2 k b b' b2 s s' s2 w w' w2 m small on h stays =
      let same = device_call-SameSlots E c k b b' s s' w w' false h in
      let on' : (s'.devices k).enabled ≡ true = same.enabled k ∙ on in
      let refused = device_call-fails E c k b b' s s' w w' h in
      let bad : InError k s' = (on', ground (arith, refused, on')) in
      let (on2, bad2) = StaysIn-InError k s' s2 m small bad stays in
      device_call-refused E c2 k b2 s2 w2 (ground (arith, on2, bad2))
