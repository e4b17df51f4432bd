-- ===== src/Disk/Tests.antt =====
-- Runs of the device manager with a USB device, a drive, and a card that is always in.
use saoirse.Prelude.{
  ℕ, ◌+◌, ◌≡◌, arith, true, false, not, ◌&&◌, Option, none, some, [], refl, pos, negsuc, ◌/◌, ◌%◌,
  ◌^◌, inl,
}
use saoirse.Prelude.Buffers.{Buffer}
use saoirse.EmuFs.Env.{fr_ok, is_ok}
use saoirse.Disk.Usb.{DeviceEntry}
use saoirse.Disk.Storage.{UsbStorage}
use saoirse.Disk.Storage.Drive.{Holds}
use saoirse.Disk.FatFs.Drive.{disk_read_exact}
use saoirse.Disk.DeviceMgr.{
  ManagerEnv, DeviceTable, sd_card, is_sd_card, device_count, is_inserted, is_mounted,
  update_handle, update_handles, detect, unmount_ejected, mount_inserted, open_log_file,
  device_read, finish, set_error, set_disk, usb_storage,
}
use saoirse.Disk.DeviceMgr.Pass.{Mounts, pass_settles}
use saoirse.Disk.DeviceMgr.Calls.{device_call, read, sync}
use saoirse.Disk.DeviceMgr.Refused.{still, next, failed_device_refused}
use saoirse.Disk.DeviceMgr.Usb.{
  timer, device_change, run_round, usb_change, scan_handles, scan_handle, find_entry, first_from,
  add_devices, add_device, identify, find_info, use_slot, is_mass_storage,
}
use saoirse.Disk.DeviceMgr.Life.{Reachable, made, goes, round, new_table}
use saoirse.Disk.DeviceMgr.Notices.{takes_turns, announced}
use saoirse.Disk.DeviceMgr.Trace.{notices_take_turns}
use saoirse.Disk.DeviceMgr.Owners.{Owns, slots_distinct}
use saoirse.Disk.FatFs.{disk_status, disk_read, sta_nodisk, res_error}
use saoirse.Disk.FatFs.Errors.{failed_drive_gone}
use saoirse.Disk.FatFs.Dates.{civil_from_days, month_and_day, year_of_era, day_of_year, get_fattime}
use saoirse.Disk.FatFs.Dates.Calendar.{date_after}
use saoirse.Disk.FatFs.Dates.Eras.{civil_from_days_exact}
use saoirse.Disk.FatFs.Dates.Stamps.{get_fattime_decodes}
use saoirse.Disk.Storage.Tests.{stream, demo, storage, is_some, get, image, drive, drive-IsDrive}

-- The manager with this device.
abbrev all : ManagerEnv
all = record {
  usb = demo;
  startup = λ w. (true, w);
  sd_inserted = λ w. (true, w);
  sd_read = λ sector count b w. (negsuc 0, b, w);
  sd_write = λ sector count b w. (pos 0, w);
  f_mount = λ k w. (fr_ok, w);
  f_unmount = λ k w. (fr_ok, w);
  f_open_log = λ k w. (fr_ok, false, w);
  f_write_log = λ bytes w. (false, w);
  f_sync_log = λ w. (false, w);
  alloc = λ w. (storage, w);
}

all-Mounts : Mounts all
unfolding is_ok
all-Mounts = record { mounts = λ k w. refl; unmounts = λ k w. refl }

abbrev memory : DeviceTable
memory = record {
  devices =
      λ k. record { disk = sd_card; enabled = true; inserted = true; error = true; mounted = true };
  usb_devices = λ i. record { in_use = true; usb_id = 0; int_id = 0 };
  log_enabled = false;
  log_device = 0;
  sent = [];
}

abbrev entries : ℕ → DeviceEntry
entries i = record { dev_id = 5; alt_set_count = 1 }

-- The table once a USB device has come in.
abbrev round_one : DeviceTable × ℕ
round_one = get (memory, 0) (run_round all (device_change entries 1) (new_table memory) 0)

get-some {ℓ} : {A : Type ℓ} (a : A) (o : Option A) → is_some o ≡ true → o ≡ some (get a o)
get-some a none h = absurd (cc)
get-some a (some x) h = refl

round_one_runs :
    run_round all (device_change entries 1) (new_table memory) 0 ≡ some (round_one.0, round_one.1)
unfolding run_round usb_change scan_handles scan_handle find_entry first_from add_devices add_device
    identify find_info use_slot is_mass_storage new_table
round_one_runs =
    get-some (memory, 0) (run_round all (device_change entries 1) (new_table memory) 0) refl

-- The device has the slot after the card's.
slot_one : Owns round_one.0 0 1
unfolding update_handles update_handle detect unmount_ejected mount_inserted open_log_file is_ok
    is_sd_card run_round usb_change scan_handles scan_handle find_entry first_from add_devices
    add_device identify find_info use_slot is_mass_storage new_table
slot_one = (refl, refl, omega arith)

reaches_one : Reachable all round_one.0
reaches_one = goes (made memory) (round (device_change entries 1) 0 round_one.1 round_one_runs)

slots_distinct_example :
    (◌≡◌ {A = ℕ} 0 0)
    × ((round_one.0.devices 1).enabled ≡ true)
    × ((round_one.0.devices 1).inserted ≡ true)
    × (is_sd_card (round_one.0.devices 1).disk ≡ false)
slots_distinct_example =
    slots_distinct all 0 0 1 round_one.0 all-Mounts reaches_one slot_one slot_one

notices_take_turns_example :
    (takes_turns 1 round_one.0.sent ≡ true)
    × (announced 1 round_one.0.sent ≡ (round_one.0.devices 1).mounted)
notices_take_turns_example = notices_take_turns all 1 round_one.0 all-Mounts reaches_one

-- A pass over the table that the constructor leaves.
abbrev passed : DeviceTable
passed = (update_handles all device_count 0 (new_table memory) 0).0

card_on : (passed.devices 0).enabled ≡ true
unfolding update_handles update_handle detect unmount_ejected mount_inserted open_log_file is_ok
    is_sd_card new_table
card_on = refl

pass_settles_example :
    (is_mounted 0 passed ≡ is_inserted 0 passed)
    × ((passed.devices 0).mounted && not (passed.devices 0).inserted ≡ false)
pass_settles_example = pass_settles all 0 (new_table memory) 0 all-Mounts (omega arith) card_on

passed_runs : run_round all timer (new_table memory) 0 ≡ some (passed, 0)
unfolding run_round update_handles update_handle detect unmount_ejected mount_inserted open_log_file
    is_ok is_sd_card new_table
passed_runs = refl

passed_reached : Reachable all passed
passed_reached = goes (made memory) (round timer 0 0 passed_runs)

drive_fails : disk_read all 0 stream 0 1 passed 0 ≡ some (res_error, stream, set_error 0 passed, 0)
unfolding disk_read device_read finish update_handles update_handle detect unmount_ejected
    mount_inserted open_log_file is_ok is_sd_card new_table
drive_fails = refl

-- A read of the card fails.
abbrev card : DeviceTable
card = record memory {
  devices = λ k. record {
    disk = sd_card;
    enabled = true;
    inserted = true;
    error = false;
    mounted = true;
  };
}

read_fails : device_call all (read 0 1) 0 stream card 0 ≡ some (false, stream, set_error 0 card, 0)
unfolding device_call device_read finish
read_fails = refl

-- A pass after the failure.
abbrev after : DeviceTable
after = (update_handles all device_count 0 (set_error 0 card) 0).0

still_in : (after.devices 0).inserted ≡ true
unfolding update_handles update_handle detect unmount_ejected mount_inserted open_log_file is_ok
    is_sd_card set_error
still_in = refl

pass_runs : run_round all timer (set_error 0 card) 0 ≡ some (after, 0)
unfolding run_round update_handles update_handle detect unmount_ejected mount_inserted open_log_file
    is_ok is_sd_card set_error
pass_runs = refl

failed_device_refused_example :
    device_call all sync 0 stream after 0 ≡ some (false, stream, after, 0)
failed_device_refused_example =
    failed_device_refused all (read 0 1) sync 0 stream stream stream card (set_error 0 card) after 0
      0 0 all-Mounts (omega arith) refl read_fails (next still (round timer 0 0 pass_runs) still_in)

failed_drive_gone_example : disk_status 0 (set_error 0 passed) ≡ sta_nodisk
failed_drive_gone_example =
    failed_drive_gone all 0 0 1 stream stream passed (set_error 0 passed) 0 0 all-Mounts
      passed_reached (inl drive_fails)

civil_from_days_exact_example : civil_from_days 789 ≡ date_after 789
civil_from_days_exact_example = civil_from_days_exact 789 (omega arith)

get_fattime_decodes_example :
    (1980 + get_fattime 1700000000 / 2 ^ 25 ≡ (civil_from_days (1700000000 / 86400)).year)
    × (get_fattime 1700000000 / 2 ^ 21 % 2 ^ 4 ≡ (civil_from_days (1700000000 / 86400)).month)
    × (get_fattime 1700000000 / 2 ^ 16 % 2 ^ 5 ≡ (civil_from_days (1700000000 / 86400)).day)
    × (get_fattime 1700000000 / 2 ^ 11 % 2 ^ 5 ≡ 1700000000 % 86400 / 3600)
    × (get_fattime 1700000000 / 2 ^ 5 % 2 ^ 6 ≡ 1700000000 % 3600 / 60)
    × (get_fattime 1700000000 % 2 ^ 5 ≡ 1700000000 % 60 % 32)
unfolding civil_from_days month_and_day year_of_era day_of_year
get_fattime_decodes_example =
    get_fattime_decodes 1700000000 (omega arith) (omega arith) (omega arith)

-- The drive in the slot after the card's.
abbrev ready : UsbStorage
ready = record storage { block_size = 512 }

abbrev driven : ManagerEnv
driven = record {
  usb = drive;
  startup = λ w. (true, w);
  sd_inserted = λ w. (true, w);
  sd_read = λ sector count b w. (pos 0, b, w);
  sd_write = λ sector count b w. (pos 0, w);
  f_mount = λ k w. (fr_ok, w);
  f_unmount = λ k w. (fr_ok, w);
  f_open_log = λ k w. (fr_ok, false, w);
  f_write_log = λ bytes w. (false, w);
  f_sync_log = λ w. (false, w);
  alloc = λ w. (storage, w);
}

abbrev served : DeviceTable
served = record memory {
  devices = λ k. record {
    disk = usb_storage ready;
    enabled = true;
    inserted = true;
    error = false;
    mounted = true;
  };
}

disk_read_exact_example :
    (b' : Buffer) × (u' : UsbStorage) × (w' : Buffer) × (disk_read driven 1
        (λ x. 0)
        7
        100
        served
        (λ x. 0)
      ≡ some (0, b', set_disk 1 served u', w'))
    × Holds drive 5 1 0x81 image drive-IsDrive 7 100 (λ x. 0) b'
disk_read_exact_example =
    disk_read_exact driven 5 1 0x81 image drive-IsDrive 1 7 100 (λ x. 0) served (λ x. 0) ready refl
      refl (refl, refl, refl, (refl, refl)) refl (omega arith) (omega arith) (omega arith)
      (omega arith)
