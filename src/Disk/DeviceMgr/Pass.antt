-- ===== src/Disk/DeviceMgr/Pass.antt =====
-- ios/Disk/DeviceMgr.cpp, `UpdateHandle`: what a pass does to the table where FatFs does its part.
use saoirse.Prelude.{
  ℕ, zero, suc, ◌+◌, ◌≤◌, ◌<◌, ◌≡◌, ◌≢◌, ◌∙◌, inl, inr, arith, refl, sym, ap, subst, Bool, true,
  false, not, ◌&&◌, ◌||◌, List, ◌∷◌, if◌then◌else◌, Bool-cases,
}
use native.Mathlib.Decide.{dec_lt}
use saoirse.EmuFs.Env.{is_ok}
use saoirse.Disk.DeviceMgr.{
  ManagerEnv, World, DeviceTable, DeviceHandle, is_sd_card, device_count, is_inserted, is_mounted,
  open_log_file, set_error, detect, unmount_ejected, mount_inserted, update_handle, update_handles,
  Notice, device_insertion, device_removal,
}

-- FatFs mounts and unmounts every drive: a mount is delayed, and an unmount only forgets.
pub record Mounts (E : ManagerEnv) : Type 0 where
  pub mounts : (k : ℕ) (w : World E) → is_ok (E.f_mount k w).0 ≡ true
  pub unmounts : (k : ℕ) (w : World E) → is_ok (E.f_unmount k w).0 ≡ true

-- What a pass makes of one device, told whether there is a card and whether the drive failed while
-- the log file was opened on it.
abbrev pub next_handle : Bool → Bool → DeviceHandle → DeviceHandle
next_handle card failed d =
    let now = if is_sd_card d.disk then card else d.inserted in
    let err = d.error && now in
    if not d.enabled
    then d
    else if d.mounted && not now
    then record d { inserted = false; error = false; mounted = false; enabled = is_sd_card d.disk }
    else record d {
      inserted = now;
      error = err || (failed && now && not d.mounted);
      mounted = d.mounted || now && not err;
    }

-- The notice that a change of a device calls for.
abbrev pub announce : ℕ → DeviceHandle → DeviceHandle → List Notice → List Notice
announce k d d' sent =
    if d.mounted && not d'.mounted
    then device_removal k ∷ sent
    else if not d.mounted && d'.mounted
    then device_insertion k ∷ sent
    else sent

module _ (E : ManagerEnv) where
  -- A table after a change of one device.
  abbrev pub ChangesTo : ℕ → DeviceHandle → DeviceTable → DeviceTable → Type 0
  ChangesTo k d s s' =
      (s'.devices k ≡ d)
      × ((x : ℕ) → x ≢ k → s'.devices x ≡ s.devices x)
      × (s'.usb_devices ≡ s.usb_devices)
      × (s'.sent ≡ announce k (s.devices k) d s.sent)

  -- Whether a pass that mounts the device opens the log file on it, and the drive then fails.
  abbrev pub log_open_fails : ℕ → DeviceTable → World E → Bool
  log_open_fails k s w =
      let mounted_at = (E.f_mount k (E.sd_inserted w).1).1 in
      not s.log_enabled && is_sd_card (s.devices k).disk && (E.f_open_log k mounted_at).1

  unmount_ejected-cases :
      (k : ℕ) (s : DeviceTable) (w : World E)
      → Mounts E
      → (s.devices k).enabled ≡ true
      → ((unmount_ejected E k s w).0 ≡ true)
        × ChangesTo k
            (if (s.devices k).mounted && not (s.devices k).inserted
              then record (s.devices k) {
                error = false;
                mounted = false;
                enabled = is_sd_card (s.devices k).disk;
              }
              else s.devices k)
            s
            (unmount_ejected E k s w).1
  unfolding unmount_ejected
  unmount_ejected-cases k s w m on = (
    ground (arith, m.unmounts k w),
    (
      ground (arith, m.unmounts k w, on),
      λ x other. ground (arith, m.unmounts k w, other),
      ground (arith, m.unmounts k w),
      ground (arith, m.unmounts k w),
    ),
  )

  -- A device that is in is not unmounted.
  unmount_ejected-in :
      (k : ℕ) (s : DeviceTable) (w : World E)
      → (s.devices k).inserted ≡ true
      → unmount_ejected E k s w ≡ (true, s, w)
  unfolding unmount_ejected
  unmount_ejected-in k s w inside = ground (arith, inside)

  detect-log :
      (k : ℕ) (s : DeviceTable) (w : World E)
      → ((detect E k s w).0.log_enabled ≡ s.log_enabled)
        × (is_sd_card (s.devices k).disk ≡ true → (detect E k s w).1 ≡ (E.sd_inserted w).1)
  unfolding detect
  detect-log k s w = (refl, λ sd. ground (arith, sd))

  mount_inserted-cases :
      (k : ℕ) (s : DeviceTable) (w : World E)
      → Mounts E
      → ChangesTo k
          (if not (s.devices k).inserted || (s.devices k).mounted || (s.devices k).error
            then s.devices k
            else record (s.devices k) {
              mounted = true;
              error =
                  not s.log_enabled
                  && is_sd_card (s.devices k).disk
                  && (E.f_open_log k (E.f_mount k w).1).1;
            })
          s
          (mount_inserted E k s w).0
  unfolding mount_inserted open_log_file set_error
  mount_inserted-cases k s w m = (
    ground (arith, m.mounts k w),
    λ x other. ground (arith, m.mounts k w, other),
    ground (arith, m.mounts k w),
    ground (arith, m.mounts k w),
  )

  detect-cases :
      (k : ℕ) (s : DeviceTable) (w : World E)
      → ((detect E k s w).0.devices k ≡ record (s.devices k) {
        inserted =
            if is_sd_card (s.devices k).disk then (E.sd_inserted w).0 else (s.devices k).inserted;
        error =
            (s.devices k).error
            && (if is_sd_card (s.devices k).disk
                then (E.sd_inserted w).0
                else (s.devices k).inserted);
      })
        × ((x : ℕ) → x ≢ k → (detect E k s w).0.devices x ≡ s.devices x)
        × ((detect E k s w).0.usb_devices ≡ s.usb_devices)
        × ((detect E k s w).0.sent ≡ s.sent)
  unfolding detect
  detect-cases k s w = (ground arith, λ x other. ground (arith, other), refl, refl)

  pub update_handle_refines :
      (k : ℕ) (s : DeviceTable) (w : World E)
      → Mounts E
      → ChangesTo k
          (next_handle (E.sd_inserted w).0 (log_open_fails k s w) (s.devices k))
          s
          (update_handle E k s w).0
  unfolding update_handle
  update_handle_refines k s w m =
      let (s1, w1) = detect E k s w in
      let (d1, out1, usb1, sent1) = detect-cases k s w in
      elim (Bool-cases (s.devices k).enabled) [
        | inr off ↦ (
          ground (arith, off),
          λ x other. ground (arith, off),
          ground (arith, off),
          ground (arith, off),
        )
        | inl on ↦
            let (go, (d2, out2, usb2, sent2)) =
              unmount_ejected-cases k s1 w1 m (ap (λ d. d.enabled) d1 ∙ on) in
            let (c, s2, w2) = unmount_ejected E k s1 w1 in
            let (d3, out3, usb3, sent3) = mount_inserted-cases k s2 w2 m in
            let step : update_handle E k s w ≡ mount_inserted E k s2 w2 = ground (arith, on, go) in
            let (log, card_world) = detect-log k s w in
            let stays = unmount_ejected-in k s1 w1 in
            rw step (
              ground (arith, d3, d2, d1, on, log, card_world, stays),
              λ x other. out3 x other ∙ out2 x other ∙ out1 x other,
              usb3 ∙ usb2 ∙ usb1,
              ground (arith, sent3, sent2, sent1, d3, d2, d1, on, log, card_world, stays),
            )
      ]

  -- The passes over the devices from `k` on.
  update_handles-before :
      (rounds k x : ℕ) (s : DeviceTable) (w : World E)
      → Mounts E
      → x < k
      → (update_handles E rounds k s w).0.devices x ≡ s.devices x
  unfolding update_handles
  update_handles-before zero k x s w m lt = refl
  update_handles-before (suc rounds) k x s w m lt =
      let (s1, w1) = update_handle E k s w in
      update_handles-before rounds (k + 1) x s1 w1 m (omega (arith, lt))
      ∙ (update_handle_refines k s w m).1 x (λ e. absurd (omega (arith, lt, e)))

  pub update_handles-each :
      (rounds k x : ℕ) (s : DeviceTable) (w : World E)
      → Mounts E
      → k ≤ x
      → x < k + rounds
      → (card failed : Bool) × ((update_handles E rounds k s w).0.devices x
          ≡ next_handle card failed (s.devices x))
  unfolding update_handles
  update_handles-each zero k x s w m from upto = absurd (omega (arith, from, upto))
  update_handles-each (suc rounds) k x s w m from upto =
      let (s1, w1) = update_handle E k s w in
      let (here, others, usb, sent) = update_handle_refines k s w m in
      elim (dec_lt k x) [
        | no late ↦
            let same : x ≡ k = omega (arith, from, late) in
            (
              (E.sd_inserted w).0,
              log_open_fails k s w,
              update_handles-before rounds (k + 1) x s1 w1 m (omega (arith, same))
                  ∙ subst
                      (λ y.
                        s1.devices y
                        ≡ next_handle (E.sd_inserted w).0 (log_open_fails k s w) (s.devices y))
                      (sym same) here,
            )
        | yes early ↦
            let (card, failed, e) =
              update_handles-each rounds (k + 1) x s1 w1 m (omega (arith, early))
                (omega (arith, upto)) in
            (
              card,
              failed,
              e
                  ∙ ap (next_handle card failed)
                      (others x (λ same. absurd (omega (arith, early, same)))),
            )
      ]

  -- After one pass over the table, where FatFs mounts and unmounts, `IsMounted` and `IsInserted` agree on
  -- every enabled device, whatever the state before, and no device that is out stays mounted: a device
  -- that came in without an error is mounted by the next pass, and one that was taken out is not.
  pub pass_settles :
      (k : ℕ) (s : DeviceTable) (w : World E)
      → Mounts E
      → k < device_count
      → ((update_handles E device_count 0 s w).0.devices k).enabled ≡ true
      → (is_mounted k (update_handles E device_count 0 s w).0
          ≡ is_inserted k (update_handles E device_count 0 s w).0)
        × (((update_handles E device_count 0 s w).0.devices k).mounted
              && not ((update_handles E device_count 0 s w).0.devices k).inserted
            ≡ false)
  unfolding is_inserted is_mounted
  pass_settles k s w m small on =
      let (card, failed, e) =
        update_handles-each device_count 0 k s w m (omega arith) (omega (arith, small)) in
      (ground (arith, e, on), ground (arith, e, on))
