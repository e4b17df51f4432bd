-- ===== src/Disk/Storage/Tests.antt =====
-- Runs with a USB device that answers from a list of bytes, and with a drive that has an image.
use saoirse.Prelude.{
  ◌⊎◌, ℕ, ◌+◌, ◌<◌, ◌≤◌, ◌≡◌, arith, Bool, true, false, Option, none, some, List, ◌∷◌, refl, pos,
  get_or, ltb, ◌==◌, if◌then◌else◌, u32, replicate, ◌%◌, ◌^◌, ap, ◌*◌, ◌-◌, ◌∙◌,
}
use saoirse.Prelude.Buffers.{Buffer, word, word_le}
use saoirse.Disk.Usb.{UsbEnv, DeviceInfo, write_bulk_msg}
use saoirse.Disk.Storage.{
  UsbStorage, sector_command, scsi_transfer, is_good_status, transfer_data, transfer_chunks,
  read_status, bulk, command_wrapper,
}
use saoirse.Disk.Storage.Transfer.{scsi_transfer_checked}
use saoirse.Disk.Storage.Stream.{IsStream, is_good_status-agree, scsi_transfer_streams}
use saoirse.Disk.Storage.Init.{init}
use saoirse.Disk.Storage.Drive.{IsDrive}
use saoirse.Disk.Storage.Ready.{init_answers}

-- Four bytes of data, and a good status for tag 1.
abbrev answer : List ℕ
answer = 7 ∷ 8 ∷ 9 ∷ 10 ∷ 0x55 ∷ 0x53 ∷ 0x42 ∷ 0x53 ∷ 1 ∷ replicate 8 0

abbrev pub stream : Buffer
stream x = get_or answer x 0

abbrev pub info : DeviceInfo
info = record {
  dev_id = 5;
  if_num = 0;
  num_endpoints = 2;
  if_class = 0x08;
  if_sub_class = 0x06;
  if_protocol = 0x50;
  endpoint = λ i. record {
    endpoint_addr = if i == 0 then 1 else 0x81;
    attributes = 2;
    max_packet_size = 512;
  };
}

-- The world is the position in the stream.
abbrev pub demo : UsbEnv
demo = record {
  World = ℕ;
  bulk_transfer = λ dev endpoint n b w. (
    pos n,
    if endpoint == 1 then b else λ x. if ltb x n then stream (w + x) else b x,
    if endpoint == 1 then w else w + n,
  );
  ctrl_transfer = λ dev kind request value index n b w. (pos (n + 8), b, w);
  attach = λ dev w. (pos 0, w);
  get_device_info = λ dev alt w. (pos 0, info, w);
}

abbrev pub storage : UsbStorage
storage = record {
  info = info;
  is_valid = false;
  id = 5;
  interface = 0;
  out_endpoint = 1;
  in_endpoint = 0x81;
  address = 0x10000000;
  buffer = λ x. 0;
  max_packet_size = 512;
  tag = 0;
  lun = 0;
  block_size = 4;
}

demo-IsStream : IsStream demo 5 1 0x81
demo-IsStream = record {
  ahead = λ w x. stream (w + x);
  sends = λ n b w. refl;
  receives = λ n b w. refl;
  contents = λ n x b w lt. ground (arith, lt);
  moves = λ n x b w. let there : w + n + x ≡ w + (n + x) = omega arith in ap stream there;
}

scsi_transfer_streams_example :
    (bytes' : Buffer) × (s' : UsbStorage) × (w' : ℕ) × (scsi_transfer demo false 4 true
        (λ x. 0)
        0
        (sector_command 0x28 3 1)
        storage
        0
      ≡ some (is_good_status (u32 (0 + 1)) (λ x. stream (0 + (4 + x))), bytes', s', w'))
    × ((x : ℕ) → x < 4 → bytes' x ≡ stream (0 + x))
    × ((x : ℕ) → 4 ≤ x → bytes' x ≡ 0)
unfolding sector_command demo-IsStream
scsi_transfer_streams_example =
    scsi_transfer_streams demo 5 1 0x81 demo-IsStream 4 0 (λ x. 0) (sector_command 0x28 3 1) storage
      0 (refl, refl, refl, (refl, refl)) (omega arith) (omega arith) (omega arith) (omega arith)

init_answers_example :
    ((2 ≤ 16)
      × ((fine : Bool) × (s' : UsbStorage) × (w' : ℕ) × (init demo storage 0
            ≡ some (fine, s', w'))))
    ⊎ ((16 < 2) × (init demo storage 0 ≡ none))
init_answers_example = init_answers demo storage 0 (refl, refl)

abbrev pub is_some {ℓ} : {A : Type ℓ} → Option A → Bool
is_some none = false
is_some (some x) = true

abbrev pub get {ℓ} : {A : Type ℓ} → A → Option A → A
get a none = a
get a (some x) = x

-- A read of four bytes, run.
abbrev ran : Bool × Buffer × UsbStorage × ℕ
ran =
    get (false, stream, storage, 0)
      (scsi_transfer demo false 4 true (λ x. 0) 0 (sector_command 0x28 3 1) storage 0)

ran_runs :
    scsi_transfer demo false 4 true (λ x. 0) 0 (sector_command 0x28 3 1) storage 0
    ≡ some (true, ran.1, ran.2, ran.3)
unfolding scsi_transfer transfer_data transfer_chunks read_status bulk write_bulk_msg is_good_status
    command_wrapper sector_command
ran_runs = refl

scsi_transfer_checked_example :
    (ran.2 ≡ record storage { tag = u32 (0 + 1); buffer = ran.2.buffer })
    × ((true ≡ false)
        ⊎ ((word_le (ran.2.buffer) 0 ≡ 0x53425355)
            × (word_le (ran.2.buffer) 4 ≡ u32 (0 + 1))
            × (word_le (ran.2.buffer) 8 ≡ 0)
            × (ran.2.buffer 12 ≡ 0)))
scsi_transfer_checked_example =
    scsi_transfer_checked demo false true true 4 0 (λ x. 0) ran.1 (sector_command 0x28 3 1) storage
      ran.2 0 ran.3 ran_runs

-- A drive whose world is what it has to say: the blocks of an image that were asked for, and a status.
abbrev pub image : Buffer
image x = x % 251

abbrev asked_bytes : Buffer → ℕ
asked_bytes b = (b 0x16 * 2 ^ 8 + b 0x17) * 512

abbrev status_of : Buffer → Buffer
status_of b x = get_or (0x55 ∷ 0x53 ∷ 0x42 ∷ 0x53 ∷ b 4 ∷ b 5 ∷ b 6 ∷ b 7 ∷ replicate 5 0) x 0

abbrev reply : Buffer → Buffer
reply b x =
    if ltb x (asked_bytes b) then image (word b 0x11 * 512 + x) else status_of b (x - asked_bytes b)

abbrev pub drive : UsbEnv
drive = record {
  World = Buffer;
  bulk_transfer = λ dev endpoint n b w. (
    pos n,
    if endpoint == 1 then b else λ x. if ltb x n then w x else b x,
    if endpoint == 1 then reply b else λ x. w (n + x),
  );
  ctrl_transfer = λ dev kind request value index n b w. (pos (n + 8), b, w);
  attach = λ dev w. (pos 0, w);
  get_device_info = λ dev alt w. (pos 0, info, w);
}

reply-status : (b : Buffer) (x : ℕ) → reply b (asked_bytes b + x) ≡ status_of b x
reply-status b x =
    let past : ltb (asked_bytes b + x) (asked_bytes b) ≡ false = ground arith in
    let there : asked_bytes b + x - asked_bytes b ≡ x = omega arith in
    rw past (ap (status_of b) there)

status_of-good : (b : Buffer) → is_good_status (word_le b 4) (status_of b) ≡ true
unfolding is_good_status
status_of-good b = ground arith

pub drive-IsDrive : IsDrive drive 5 1 0x81 image
drive-IsDrive = record {
  answers = record {
    ahead = λ w. w;
    sends = λ n b w. refl;
    receives = λ n b w. refl;
    contents = λ n x b w lt. ground (arith, lt);
    moves = λ n x b w. refl;
  };
  replies = λ b w signature op x lt. ground (arith, lt);
  confirms = λ b w signature op.
      is_good_status-agree (word_le b 4) (λ x. reply b (asked_bytes b + x)) (status_of b)
        (λ x lt. reply-status b x)
      ∙ status_of-good b;
}
