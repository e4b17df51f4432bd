-- ===== src/Disk/DeviceMgr/Calls.antt =====
-- ios/Disk/DeviceMgr.cpp, the calls of the volumes: what they change of the table, and the errors.
use saoirse.Prelude.{
  ℕ, ◌≡◌, subst, ◌⊎◌, inl, inr, arith, refl, Bool, true, false, not, some, Bool-cases, Option-cases,
  pos, eq_ℤ,
}
use saoirse.Prelude.Buffers.{Buffer}
use saoirse.Disk.Storage
use saoirse.Disk.Storage.{UsbStorage}
use saoirse.Disk.DeviceMgr.{
  ManagerEnv, World, DeviceTable, DiskVariant, sd_card, usb_storage, is_sd_card, set_error,
  set_disk, is_refused, finish, device_init, device_read, device_write, device_sync, Served,
}

-- What no call changes: all but the state of the disk and the error of devices, which none clears.
pub record SameSlots (s s' : DeviceTable) : Type 0 where
  pub kind : (k : ℕ) → is_sd_card (s'.devices k).disk ≡ is_sd_card (s.devices k).disk
  pub enabled : (k : ℕ) → (s'.devices k).enabled ≡ (s.devices k).enabled
  pub inserted : (k : ℕ) → (s'.devices k).inserted ≡ (s.devices k).inserted
  pub mounted : (k : ℕ) → (s'.devices k).mounted ≡ (s.devices k).mounted
  pub in_error : (k : ℕ) → (s.devices k).error ≡ true → (s'.devices k).error ≡ true
  pub usb_devices : s'.usb_devices ≡ s.usb_devices
  pub sent : s'.sent ≡ s.sent

SameSlots-refl : (s : DeviceTable) → SameSlots s s
SameSlots-refl s = record {
  kind = λ k. refl;
  enabled = λ k. refl;
  inserted = λ k. refl;
  mounted = λ k. refl;
  in_error = λ k e. e;
  usb_devices = refl;
  sent = refl;
}

pub set_error-SameSlots : (k : ℕ) (s : DeviceTable) → SameSlots s (set_error k s)
unfolding set_error
set_error-SameSlots k s = record {
  kind = λ x. ground arith;
  enabled = λ x. ground arith;
  inserted = λ x. ground arith;
  mounted = λ x. ground arith;
  in_error = λ x e. ground (arith, e);
  usb_devices = refl;
  sent = refl;
}

set_disk-SameSlots :
    (k : ℕ) (s : DeviceTable) (u u' : UsbStorage)
    → (s.devices k).disk ≡ usb_storage u
    → SameSlots s (set_disk k s u')
unfolding is_sd_card
set_disk-SameSlots k s u u' h = record {
  kind = λ x. ground (arith, h);
  enabled = λ x. ground arith;
  inserted = λ x. ground arith;
  mounted = λ x. ground arith;
  in_error = λ x e. ground (arith, e);
  usb_devices = refl;
  sent = refl;
}

-- The calls, each with its arguments.
pub data Call : Type 0 where
  initialise sync : Call
  read write : ℕ → ℕ → Call

module _ (E : ManagerEnv) where
  unfoldable pub device_call : Call → ℕ → Buffer → DeviceTable → World E → Served E
  device_call initialise k b s w = device_init E k b s w
  device_call sync k b s w = device_sync E k b s w
  device_call (read sector count) k b s w = device_read E k b sector count s w
  device_call (write sector count) k b s w = device_write E k b sector count s w

  pub device_call-refused :
      (c : Call) (k : ℕ) (b : Buffer) (s : DeviceTable) (w : World E)
      → is_refused k s ≡ true
      → device_call c k b s w ≡ some (false, b, s, w)
  unfolding device_call device_init device_sync device_read device_write
  device_call-refused initialise k b s w h = rw h refl
  device_call-refused sync k b s w h = rw h refl
  device_call-refused (read sector count) k b s w h = rw h refl
  device_call-refused (write sector count) k b s w h = rw h refl

  -- What a call that is not refused has changed.
  abbrev Reports : ℕ → Bool → DeviceTable → DeviceTable → Type 0
  Reports k fine s s' = SameSlots s s' × ((s'.devices k).error ≡ not fine)

  finish-Reports :
      (k : ℕ) (s s' s0 : DeviceTable) (fine fine' : Bool) (b b' : Buffer) (w w' : World E)
      → SameSlots s0 s
      → (s.devices k).error ≡ false
      → finish E k s fine b w ≡ some (fine', b', s', w')
      → Reports k fine' s0 s'
  unfolding finish set_error
  finish-Reports k s s' s0 fine fine' b b' w w' same ok h = (
    record {
      kind = λ x. ground (arith, h, same.kind x);
      enabled = λ x. ground (arith, h, same.enabled x);
      inserted = λ x. ground (arith, h, same.inserted x);
      mounted = λ x. ground (arith, h, same.mounted x);
      in_error = λ x e. ground (arith, h, e, same.in_error x);
      usb_devices = ground (arith, h, same.usb_devices);
      sent = ground (arith, h, same.sent);
    },
    ground (arith, h, ok),
  )

  -- How a call goes on after a command to a USB storage.
  storage-Reports :
      (k : ℕ) (s s' : DeviceTable) (u u' : UsbStorage) (fine fine' : Bool) (b b' : Buffer)
      (w w' : World E)
      → (s.devices k).disk ≡ usb_storage u
      → (s.devices k).error ≡ false
      → finish E k (set_disk k s u') fine b w ≡ some (fine', b', s', w')
      → Reports k fine' s s'
  storage-Reports k s s' u u' fine fine' b b' w w' is_usb ok h =
      finish-Reports k (set_disk k s u') s' s fine fine' b b' w w'
        (set_disk-SameSlots k s u u' is_usb) (ground (arith, ok)) h

  DiskVariant-cases : (d : DiskVariant) → (d ≡ sd_card) ⊎ ((u : UsbStorage) × (d ≡ usb_storage u))
  DiskVariant-cases sd_card = inl refl
  DiskVariant-cases (usb_storage u) = inr (u, refl)

  device_read-Reports :
      (k sector count : ℕ) (b b' : Buffer) (s s' : DeviceTable) (w w' : World E) (fine : Bool)
      → is_refused k s ≡ false
      → device_read E k b sector count s w ≡ some (fine, b', s', w')
      → Reports k fine s s'
  unfolding device_read
  device_read-Reports k sector count b b' s s' w w' fine in_service h =
      let ok : (s.devices k).error ≡ false = ground (arith, in_service) in
      elim (DiskVariant-cases (s.devices k).disk) [
        | inl sd ↦
            let (ret, b2, w2) = E.sd_read sector count b w in
            finish-Reports k s s' s (eq_ℤ ret (pos 0)) fine b2 b' w2 w' (SameSlots-refl s) ok
              (ground (arith, h, sd, in_service))
        | inr (u, is_usb) ↦ elim (Option-cases (Storage.read_sectors E.usb sector count b u w)) [
          | inl stop ↦ absurd (ground (arith, h, stop, is_usb, in_service))
          | inr ((done, b2, u', w2), e) ↦
              storage-Reports k s s' u u' done fine b2 b' w2 w' is_usb ok
                (ground (arith, h, e, is_usb, in_service))
        ]
      ]

  device_write-Reports :
      (k sector count : ℕ) (b b' : Buffer) (s s' : DeviceTable) (w w' : World E) (fine : Bool)
      → is_refused k s ≡ false
      → device_write E k b sector count s w ≡ some (fine, b', s', w')
      → Reports k fine s s'
  unfolding device_write
  device_write-Reports k sector count b b' s s' w w' fine in_service h =
      let ok : (s.devices k).error ≡ false = ground (arith, in_service) in
      elim (DiskVariant-cases (s.devices k).disk) [
        | inl sd ↦
            let (ret, w2) = E.sd_write sector count b w in
            finish-Reports k s s' s (eq_ℤ ret (pos 0)) fine b b' w2 w' (SameSlots-refl s) ok
              (ground (arith, h, sd, in_service))
        | inr (u, is_usb) ↦ elim (Option-cases (Storage.write_sectors E.usb sector count b u w)) [
          | inl stop ↦ absurd (ground (arith, h, stop, is_usb, in_service))
          | inr ((done, b2, u', w2), e) ↦
              storage-Reports k s s' u u' done fine b b' w2 w' is_usb ok
                (ground (arith, h, e, is_usb, in_service))
        ]
      ]

  device_init-Reports :
      (k : ℕ) (b b' : Buffer) (s s' : DeviceTable) (w w' : World E) (fine : Bool)
      → is_refused k s ≡ false
      → device_init E k b s w ≡ some (fine, b', s', w')
      → Reports k fine s s'
  unfolding device_init
  device_init-Reports k b b' s s' w w' fine in_service h =
      let ok : (s.devices k).error ≡ false = ground (arith, in_service) in
      elim (DiskVariant-cases (s.devices k).disk) [
        | inl sd ↦
            let (started, w2) = E.startup w in
            finish-Reports k s s' s started fine b b' w2 w' (SameSlots-refl s) ok
              (ground (arith, h, sd, in_service))
        | inr (u, is_usb) ↦ elim (Option-cases (Storage.Init.init E.usb u w)) [
          | inl stop ↦ absurd (ground (arith, h, stop, is_usb, in_service))
          | inr ((done, u', w2), e) ↦
              storage-Reports k s s' u u' done fine b b' w2 w' is_usb ok
                (ground (arith, h, e, is_usb, in_service))
        ]
      ]

  device_sync-Reports :
      (k : ℕ) (b b' : Buffer) (s s' : DeviceTable) (w w' : World E) (fine : Bool)
      → is_refused k s ≡ false
      → device_sync E k b s w ≡ some (fine, b', s', w')
      → Reports k fine s s'
  unfolding device_sync finish
  device_sync-Reports k b b' s s' w w' fine in_service h =
      let ok : (s.devices k).error ≡ false = ground (arith, in_service) in
      elim (DiskVariant-cases (s.devices k).disk) [
        | inl sd ↦
            finish-Reports k s s' s true fine b b' w w' (SameSlots-refl s) ok
              (ground (arith, h, sd, in_service))
        | inr (u, is_usb) ↦ elim (Option-cases (Storage.sync E.usb u w)) [
          | inl stop ↦ absurd (ground (arith, h, stop, is_usb, in_service))
          | inr ((done, b2, u', w2), e) ↦
              storage-Reports k s s' u u' done fine b b' w2 w' is_usb ok
                (ground (arith, h, e, is_usb, in_service))
        ]
      ]

  device_call-Reports :
      (c : Call) (k : ℕ) (b b' : Buffer) (s s' : DeviceTable) (w w' : World E) (fine : Bool)
      → is_refused k s ≡ false
      → device_call c k b s w ≡ some (fine, b', s', w')
      → Reports k fine s s'
  unfolding device_call
  device_call-Reports initialise k b b' s s' w w' fine in_service h =
      device_init-Reports k b b' s s' w w' fine in_service h
  device_call-Reports sync k b b' s s' w w' fine in_service h =
      device_sync-Reports k b b' s s' w w' fine in_service h
  device_call-Reports (read sector count) k b b' s s' w w' fine in_service h =
      device_read-Reports k sector count b b' s s' w w' fine in_service h
  device_call-Reports (write sector count) k b b' s s' w w' fine in_service h =
      device_write-Reports k sector count b b' s s' w w' fine in_service h

  -- Refused or not, a call keeps the slots.
  pub device_call-SameSlots :
      (c : Call) (k : ℕ) (b b' : Buffer) (s s' : DeviceTable) (w w' : World E) (fine : Bool)
      → device_call c k b s w ≡ some (fine, b', s', w')
      → SameSlots s s'
  device_call-SameSlots c k b b' s s' w w' fine h = elim (Bool-cases (is_refused k s)) [
    | inr in_service ↦ (device_call-Reports c k b b' s s' w w' fine in_service h).0
    | inl refused ↦
        let same : s ≡ s' = ground (arith, h, device_call-refused c k b s w refused) in
        subst (λ t. SameSlots s t) same (SameSlots-refl s)
  ]

  -- A call that fails leaves its device refused.
  pub device_call-fails :
      (c : Call) (k : ℕ) (b b' : Buffer) (s s' : DeviceTable) (w w' : World E)
      → device_call c k b s w ≡ some (false, b', s', w')
      → is_refused k s' ≡ true
  device_call-fails c k b b' s s' w w' h = elim (Bool-cases (is_refused k s)) [
    | inr in_service ↦ ground (arith, (device_call-Reports c k b b' s s' w w' false in_service h).1)
    | inl refused ↦
        let same : s ≡ s' = ground (arith, h, device_call-refused c k b s w refused) in
        subst (λ t. is_refused k t ≡ true) same refused
  ]
