-- ===== src/Disk/FatFs/Errors.antt =====
-- ios/Disk/FatFS.cpp: what FatFs sees of a drive whose device failed.
use saoirse.Prelude.{ℕ, ◌≡◌, ◌⊎◌, inl, inr, arith, true, false, some, Option-cases, u32}
use saoirse.Prelude.Buffers.{Buffer}
use saoirse.Disk.DeviceMgr.{
  ManagerEnv, World, DeviceTable, is_mounted, is_inserted, is_refused, device_read, device_write,
}
use saoirse.Disk.DeviceMgr.Pass.{Mounts}
use saoirse.Disk.DeviceMgr.Calls.{device_call, read, write, device_call-fails}
use saoirse.Disk.DeviceMgr.Notices.{IsAnnounced}
use saoirse.Disk.DeviceMgr.Induct.{Reachable-kept}
use saoirse.Disk.DeviceMgr.Life.{Reachable, goes, calls}
use saoirse.Disk.DeviceMgr.Trace.{IsAnnounced-kept}
use saoirse.Disk.FatFs.{disk_status, disk_read, disk_write, sta_nodisk, res_error}

-- A device that refuses its calls does not count as mounted, where only enabled ones are.
refused-gone :
    (k : ℕ) (s : DeviceTable) → IsAnnounced s → is_refused k s ≡ true → disk_status k s ≡ sta_nodisk
unfolding disk_status is_mounted is_inserted
refused-gone k s a refused = ground (arith, refused, a.on k)

module _ (E : ManagerEnv) where
  disk_read-fails :
      (k sector count : ℕ) (b b' : Buffer) (s s' : DeviceTable) (w w' : World E)
      → disk_read E k b sector count s w ≡ some (res_error, b', s', w')
      → device_call E (read (u32 sector) (u32 count)) k b s w ≡ some (false, b', s', w')
  unfolding disk_read device_call
  disk_read-fails k sector count b b' s s' w w' h =
      elim (Option-cases (device_read E k b (u32 sector) (u32 count) s w)) [
        | inl stop ↦ absurd (ground (arith, h, stop))
        | inr ((fine, b2, s2, w2), e) ↦ ground (arith, h, e)
      ]

  disk_write-fails :
      (k sector count : ℕ) (b b' : Buffer) (s s' : DeviceTable) (w w' : World E)
      → disk_write E k b sector count s w ≡ some (res_error, b', s', w')
      → device_call E (write (u32 sector) (u32 count)) k b s w ≡ some (false, b', s', w')
  unfolding disk_write device_call
  disk_write-fails k sector count b b' s s' w w' h =
      elim (Option-cases (device_write E k b (u32 sector) (u32 count) s w)) [
        | inl stop ↦ absurd (ground (arith, h, stop))
        | inr ((fine, b2, s2, w2), e) ↦ ground (arith, h, e)
      ]

  -- In every run of the manager where FatFs mounts and unmounts: after a read or a write of a drive has
  -- failed, the drive reports that it has no disk.
  pub failed_drive_gone :
      (k sector count : ℕ) (b b' : Buffer) (s s' : DeviceTable) (w w' : World E)
      → Mounts E
      → Reachable E s
      → (disk_read E k b sector count s w ≡ some (res_error, b', s', w'))
        ⊎ (disk_write E k b sector count s w ≡ some (res_error, b', s', w'))
      → disk_status k s' ≡ sta_nodisk
  failed_drive_gone k sector count b b' s s' w w' m run (inl h) =
      let e = disk_read-fails k sector count b b' s s' w w' h in
      let after = goes run (calls (read (u32 sector) (u32 count)) k false b b' w w' e) in
      refused-gone k s' (Reachable-kept E IsAnnounced (IsAnnounced-kept E m) s' after)
        (device_call-fails E (read (u32 sector) (u32 count)) k b b' s s' w w' e)
  failed_drive_gone k sector count b b' s s' w w' m run (inr h) =
      let e = disk_write-fails k sector count b b' s s' w w' h in
      let after = goes run (calls (write (u32 sector) (u32 count)) k false b b' w w' e) in
      refused-gone k s' (Reachable-kept E IsAnnounced (IsAnnounced-kept E m) s' after)
        (device_call-fails E (write (u32 sector) (u32 count)) k b b' s s' w w' e)
