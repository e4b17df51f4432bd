-- ===== src/Disk/DeviceMgr/Trace.antt =====
-- ios/Disk/DeviceMgr.cpp: the notices sent over any run of the program, USB changes included.
use saoirse.Prelude.{
  ℕ, zero, suc, ◌+◌, ◌<◌, ◌≡◌, ◌∙◌, inl, inr, arith, sym, ap, Bool, true, not, some, Bool-cases,
  Option-cases,
}
use saoirse.Disk.Usb.{DeviceEntry, DeviceInfo}
use saoirse.Disk.DeviceMgr.{ManagerEnv, World, DeviceTable, device_count, UsbDeviceHandle}
use saoirse.Disk.DeviceMgr.Pass.{Mounts}
use saoirse.Disk.DeviceMgr.Calls.{SameSlots}
use saoirse.Disk.DeviceMgr.Usb.{first_from, scan_handle, find_entry, use_slot, set_usb}
use saoirse.Disk.DeviceMgr.Life.{Reachable}
use saoirse.Disk.DeviceMgr.Notices.{
  announced, takes_turns, IsAnnounced, KeepsMounts, KeepsMounts-IsAnnounced, new_table-IsAnnounced,
  update_handle-IsAnnounced,
}
use saoirse.Disk.DeviceMgr.Induct.{IsKept, Reachable-kept}

pub first_from-found :
    (test : ℕ → Bool) (rounds j k : ℕ)
    → first_from test rounds j ≡ some k
    → (test k ≡ true) × (k < j + rounds)
unfolding first_from
first_from-found test zero j k h = absurd (ground (arith, h))
first_from-found test (suc rounds) j k h = elim (Bool-cases (test j)) [
  | inl yes_here ↦
      let here : j ≡ k = ground (arith, h, yes_here) in
      (ap test (sym here) ∙ yes_here, omega (arith, here))
  | inr not_here ↦
      let (t, lt) = first_from-found test rounds (j + 1) k (ground (arith, h, not_here)) in
      (t, omega (arith, lt))
]

scan_handle-KeepsMounts :
    (entries : ℕ → DeviceEntry) (count i : ℕ) (s : DeviceTable) (found : ℕ → Bool)
    → KeepsMounts s (scan_handle entries count i s found).0
unfolding scan_handle
scan_handle-KeepsMounts entries count i s found =
    elim (Option-cases (find_entry entries count (s.usb_devices i))) [
      | inl gone ↦ record {
        enabled = λ k. ground (arith, gone);
        mounted = λ k. ground (arith, gone);
        sent = ground (arith, gone);
      }
      | inr (j, here) ↦ record {
        enabled = λ k. ground (arith, here);
        mounted = λ k. ground (arith, here);
        sent = ground (arith, here);
      }
    ]

module _ (E : ManagerEnv) where
  use_slot-IsAnnounced :
      (j : ℕ) (info : DeviceInfo) (s : DeviceTable) (w : World E)
      → IsAnnounced s
      → IsAnnounced (use_slot E j info s w).0
  unfolding use_slot
  use_slot-IsAnnounced j info s w a =
      elim (Option-cases (first_from (λ k. not (s.devices k).enabled) device_count 0)) [
        | inl full ↦ rw (use_slot, full) a
        | inr (k, free) ↦
            let off = (first_from-found (λ x. not (s.devices x).enabled) device_count 0 k free).0 in
            let stays : (x : ℕ)
                → ((use_slot E j info s w).0.devices x).mounted ≡ (s.devices x).mounted =
              λ x. ground (arith, free, off, a.on k) in
            let sent : (use_slot E j info s w).0.sent ≡ s.sent = ground (arith, free) in
            record {
              on = λ x h. ground (arith, h, free, off, a.on x);
              tells = λ x. ap (announced x) sent ∙ a.tells x ∙ sym (stays x);
              turns = λ x. ap (takes_turns x) sent ∙ a.turns x;
            }
      ]

  SameSlots-KeepsMounts : (s s' : DeviceTable) → SameSlots s s' → KeepsMounts s s'
  SameSlots-KeepsMounts s s' same = record {
    enabled = same.enabled;
    mounted = same.mounted;
    sent = same.sent;
  }

  set_usb-IsAnnounced :
      (s : DeviceTable) (j : ℕ) (h : UsbDeviceHandle) → IsAnnounced s → IsAnnounced (set_usb s j h)
  set_usb-IsAnnounced s j h a = record { on = a.on; tells = a.tells; turns = a.turns }

  pub IsAnnounced-kept : Mounts E → IsKept E IsAnnounced
  IsAnnounced-kept m = record {
    at_start = new_table-IsAnnounced;
    in_pass = update_handle-IsAnnounced E m;
    in_call = λ s s' same. KeepsMounts-IsAnnounced s s' (SameSlots-KeepsMounts s s' same);
    in_change = record {
      in_scan = λ entries count i s found.
          KeepsMounts-IsAnnounced s (scan_handle entries count i s found).0
            (scan_handle-KeepsMounts entries count i s found);
      in_add = λ entry j s. set_usb-IsAnnounced s j _;
      in_use = use_slot-IsAnnounced;
    };
  }

  -- In every run of the manager, with passes, USB changes and calls of the volumes in any order, where
  -- FatFs mounts and unmounts: the notices of a device take turns, an insertion first, and a device is
  -- mounted exactly while the last notice about it is of its insertion.
  pub notices_take_turns :
      (k : ℕ) (s : DeviceTable)
      → Mounts E
      → Reachable E s
      → (takes_turns k s.sent ≡ true) × (announced k s.sent ≡ (s.devices k).mounted)
  notices_take_turns k s m run =
      let a = Reachable-kept E IsAnnounced (IsAnnounced-kept m) s run in (a.turns k, a.tells k)
