-- ===== src/Disk/DeviceMgr/Notices.antt =====
-- ios/Disk/DeviceMgr.cpp: the notices of insertions and removals that the channel is sent.
use saoirse.Prelude.{
  ℕ, ◌≡◌, ◌≢◌, ◌∙◌, ◌⊎◌, inl, inr, arith, refl, sym, ap, Bool, true, false, not, ◌&&◌, ◌||◌, List,
  [], ◌∷◌, ◌==◌, Bool-cases,
}
use saoirse.Disk.DeviceMgr.{
  ManagerEnv, World, DeviceTable, DeviceHandle, update_handle, Notice, device_insertion,
  device_removal,
}
use saoirse.Disk.DeviceMgr.Pass.{
  Mounts, next_handle, log_open_fails, announce, update_handle_refines,
}
use saoirse.Disk.DeviceMgr.Life.{new_table}

-- Whether the last notice about a device is that it was inserted.
abbrev pub announced : ℕ → List Notice → Bool
announced k [] = false
announced k (device_insertion x ∷ sent) = x == k || announced k sent
announced k (device_removal x ∷ sent) = not (x == k) && announced k sent

-- Insertions and removals of a device take turns, an insertion first.
abbrev pub takes_turns : ℕ → List Notice → Bool
takes_turns k [] = true
takes_turns k (device_insertion x ∷ sent) = takes_turns k sent && not (x == k && announced k sent)
takes_turns k (device_removal x ∷ sent) = takes_turns k sent && (not (x == k) || announced k sent)

-- Only enabled devices are mounted, and the notices tell which ones.
pub record IsAnnounced (s : DeviceTable) : Type 0 where
  pub on : (k : ℕ) → (s.devices k).mounted ≡ true → (s.devices k).enabled ≡ true
  pub tells : (k : ℕ) → announced k s.sent ≡ (s.devices k).mounted
  pub turns : (k : ℕ) → takes_turns k s.sent ≡ true

pub new_table-IsAnnounced : (memory : DeviceTable) → IsAnnounced (new_table memory)
unfolding new_table
new_table-IsAnnounced memory = record {
  on = λ k h. absurd (ground (arith, h));
  tells = λ k. refl;
  turns = λ k. refl;
}

-- What an announcement depends on.
pub record KeepsMounts (s s' : DeviceTable) : Type 0 where
  pub enabled : (k : ℕ) → (s'.devices k).enabled ≡ (s.devices k).enabled
  pub mounted : (k : ℕ) → (s'.devices k).mounted ≡ (s.devices k).mounted
  pub sent : s'.sent ≡ s.sent

pub KeepsMounts-IsAnnounced :
    (s s' : DeviceTable) → KeepsMounts s s' → IsAnnounced s → IsAnnounced s'
KeepsMounts-IsAnnounced s s' same a = record {
  on = λ k h. same.enabled k ∙ a.on k (sym (same.mounted k) ∙ h);
  tells = λ k. ap (announced k) same.sent ∙ a.tells k ∙ sym (same.mounted k);
  turns = λ k. ap (takes_turns k) same.sent ∙ a.turns k;
}

pub same_or_other : (x k : ℕ) → (x ≡ k) ⊎ (x ≢ k)
same_or_other x k = elim (Bool-cases (x == k)) [
  | inl h ↦ inl (ground (arith, h))
  | inr h ↦ inr (λ e. ground (arith, h, e))
]

-- A pass over a device.
announce-tells :
    (k : ℕ) (d d' : DeviceHandle) (sent : List Notice)
    → announced k sent ≡ d.mounted
    → announced k (announce k d d' sent) ≡ d'.mounted
announce-tells k d d' sent h = ground (arith, h)

announce-others :
    (x k : ℕ) (d d' : DeviceHandle) (sent : List Notice)
    → x ≢ k
    → (announced x (announce k d d' sent) ≡ announced x sent)
      × (takes_turns x (announce k d d' sent) ≡ takes_turns x sent)
announce-others x k d d' sent other = (ground (arith, other), ground (arith, other))

announce-turns :
    (k : ℕ) (d d' : DeviceHandle) (sent : List Notice)
    → announced k sent ≡ d.mounted
    → takes_turns k sent ≡ true
    → takes_turns k (announce k d d' sent) ≡ true
announce-turns k d d' sent h turns = ground (arith, h, turns)

module _ (E : ManagerEnv) (m : Mounts E) where
  pub update_handle-IsAnnounced :
      (k : ℕ) (s : DeviceTable) (w : World E)
      → IsAnnounced s
      → IsAnnounced (update_handle E k s w).0
  update_handle-IsAnnounced k s w a =
      let (here, others, usb, sent) = update_handle_refines E k s w m in
      let d = next_handle (E.sd_inserted w).0 (log_open_fails E k s w) (s.devices k) in
      let turned = announce-turns k (s.devices k) d s.sent (a.tells k) (a.turns k) in
      let told = announce-tells k (s.devices k) d s.sent (a.tells k) in
      record {
        on = λ x h. elim (same_or_other x k) [
          | inl same ↦ ground (arith, same, h, here, a.on k)
          | inr other ↦ ground (arith, h, others x other, a.on x)
        ];
        tells = λ x. elim (same_or_other x k) [
          | inl same ↦ ground (arith, same, here, told, sent)
          | inr other ↦
              ap (announced x) sent
              ∙ (announce-others x k (s.devices k) d s.sent other).0
              ∙ a.tells x
              ∙ sym (ap (λ v. v.mounted) (others x other))
        ];
        turns = λ x. elim (same_or_other x k) [
          | inl same ↦ ground (arith, same, turned, sent)
          | inr other ↦
              ap (takes_turns x) sent
              ∙ (announce-others x k (s.devices k) d s.sent other).1
              ∙ a.turns x
        ];
      }
