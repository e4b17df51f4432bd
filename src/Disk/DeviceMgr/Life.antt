-- ===== src/Disk/DeviceMgr/Life.antt =====
-- ios/Disk/DeviceMgr.cpp, the life of the table: the constructor, and the steps of the device thread
-- and of the threads that read and write files, in any order.
use saoirse.Prelude.{ℕ, ◌≡◌, Bool, false, some, [], ◌==◌, if◌then◌else◌}
use saoirse.Prelude.Buffers.{Buffer}
use saoirse.Disk.DeviceMgr.{ManagerEnv, World, DeviceTable, sd_card, set_error}
use saoirse.Disk.DeviceMgr.Usb.{Event, run_round}
use saoirse.Disk.DeviceMgr.Calls.{Call, device_call}

-- The table that the constructor leaves of the memory it is made in.
unfoldable pub new_table : DeviceTable → DeviceTable
new_table memory = record memory {
  devices = λ k. record (memory.devices k) {
    disk = if k == 0 then sd_card else (memory.devices k).disk;
    enabled = k == 0;
    inserted = false;
    error = false;
    mounted = false;
  };
  usb_devices = λ i. record (memory.usb_devices i) { in_use = false };
  sent = [];
}

module _ (E : ManagerEnv) where
  -- One step, from a table in any world.
  pub data Step : DeviceTable → DeviceTable → Type 0 where
    round :
        {s s' : DeviceTable} (e : Event E) (w w' : World E)
        → run_round E e s w ≡ some (s', w')
        → Step s s'
    calls :
        {s s' : DeviceTable} (c : Call) (k : ℕ) (fine : Bool) (b b' : Buffer) (w w' : World E)
        → device_call E c k b s w ≡ some (fine, b', s', w')
        → Step s s'
    fails : {s : DeviceTable} (k : ℕ) → Step s (set_error k s)

  pub data Reachable : DeviceTable → Type 0 where
    made : (memory : DeviceTable) → Reachable (new_table memory)
    goes : {s s' : DeviceTable} → Reachable s → Step s s' → Reachable s'
