-- ===== src/EmuEs/Calls.antt =====
-- common/System/ES.cpp: the calls of the real ES, each an ioctlv with the vectors it builds.
use saoirse.Prelude.{
  ℕ, ◌+◌, ◌-◌, ◌*◌, ◌/◌, ◌%◌, ◌^◌, ◌<◌, ◌≡◌, false, ◌&&◌, Option, none, some, List, [], ◌∷◌, ltb,
  leb, if◌then◌else◌, arith, ℤ, u32,
}
use saoirse.Prelude.Buffers.{Buffer}
use saoirse.EmuEs.Ioctl.{EsIoctl, number, ticket_size, ticket_view_size}

-- An input vector: its bytes, unless it is a null pointer, and its length.
pub record InVector : Type 0 where
  pub bytes : Option Buffer
  pub len : ℕ

-- What an ioctlv writes to its output vector: the bytes, where it writes any, by position.
abbrev pub Written : Type 0
Written = ℕ → Option ℕ

-- The real `/dev/es`: for a command, its input vectors and the length of its output vector, the
-- result and what is written.
pub record Es : Type 1 where
  pub World : Type 0
  pub ioctlv : ℕ → List InVector → Option ℕ → World → ℤ × Written × World

-- The bytes of a local variable, big-endian.
abbrev pub u32_bytes : ℕ → Buffer
u32_bytes v x = v / 256 ^ (3 - x) % 256

abbrev pub u64_bytes : ℕ → Buffer
u64_bytes v x = v / 256 ^ (7 - x) % 256

abbrev pub in_word : ℕ → InVector
in_word v = record { bytes = some (u32_bytes v); len = 4 }

abbrev pub in_title : ℕ → InVector
in_title id = record { bytes = some (u64_bytes id); len = 8 }

-- The memory with what was written to the vector of `len` bytes at `at`.
unfoldable pub store : Buffer → ℕ → ℕ → Written → Buffer
store m at len written x =
    if leb at x && ltb x (at + len)
    then elim (written (x - at)) [ none ↦ m x | some b ↦ b ]
    else m x

module _ (E : Es) where
  open E use {World, ioctlv}

  -- `m_rm.ioctlv(cmd, vec)` with one output vector, at `out`
  unfoldable pub call_out : EsIoctl → List InVector → ℕ → ℕ → Buffer → World → ℤ × Buffer × World
  call_out cmd ins out len m w =
      let (ret, written, w') = ioctlv (number cmd) ins (some len) w in
      (ret, store m out len written, w')

  abbrev pub Call : Type 0
  Call = Buffer → World → ℤ × Buffer × World

  abbrev pub launch_title : ℕ → Buffer → World → ℤ × World
  launch_title id view w =
      let ins = in_title id ∷ record { bytes = some view; len = ticket_view_size } ∷ [] in
      let (ret, written, w') = ioctlv (number EsIoctl.launch_title) ins none w in (ret, w')

  abbrev pub get_device_id : ℕ → Call
  get_device_id out = call_out EsIoctl.get_device_id [] out 4

  abbrev pub get_owned_titles_count : ℕ → Call
  get_owned_titles_count out = call_out EsIoctl.get_owned_titles_count [] out 4

  abbrev pub get_titles_count : ℕ → Call
  get_titles_count out = call_out EsIoctl.get_titles_count [] out 4

  abbrev pub get_titles : ℕ → ℕ → Call
  get_titles count out = call_out EsIoctl.get_titles (in_word count ∷ []) out (u32 (8 * count))

  abbrev pub get_title_contents_count : ℕ → ℕ → Call
  get_title_contents_count id out =
      call_out EsIoctl.get_title_contents_count (in_title id ∷ []) out 4

  abbrev pub get_title_contents : ℕ → ℕ → ℕ → Call
  get_title_contents id count out =
      call_out EsIoctl.get_title_contents (in_title id ∷ in_word count ∷ []) out (u32 (4 * count))

  abbrev pub get_num_ticket_views : ℕ → ℕ → Call
  get_num_ticket_views id out = call_out EsIoctl.get_num_ticket_views (in_title id ∷ []) out 4

  abbrev pub get_ticket_views : ℕ → ℕ → ℕ → Call
  get_ticket_views id count out =
      call_out EsIoctl.get_ticket_views (in_title id ∷ in_word count ∷ []) out
        (u32 (ticket_view_size * count))

  abbrev pub get_tmd_view_size : ℕ → ℕ → Call
  get_tmd_view_size id out = call_out EsIoctl.get_tmd_view_size (in_title id ∷ []) out 4

  abbrev pub get_tmd_view : ℕ → ℕ → ℕ → Call
  get_tmd_view id out len = call_out EsIoctl.get_tmd_view (in_title id ∷ []) out len

  abbrev pub di_get_ticket_view : Option Buffer → ℕ → Call
  di_get_ticket_view ticket out =
      call_out EsIoctl.di_get_ticket_view (record { bytes = ticket; len = ticket_size } ∷ []) out
        ticket_view_size

  abbrev pub get_data_dir : ℕ → ℕ → Call
  get_data_dir id out = call_out EsIoctl.get_data_dir (in_title id ∷ []) out 30

  abbrev pub get_device_cert : ℕ → Call
  get_device_cert out = call_out EsIoctl.get_device_cert [] out 0x180

  abbrev pub get_title_id : ℕ → Call
  get_title_id out = call_out EsIoctl.get_title_id [] out 8

pub store_outside :
    (m : Buffer) (at len : ℕ) (written : Written) (x : ℕ)
    → (leb at x && ltb x (at + len)) ≡ false
    → store m at len written x ≡ m x
unfolding store
store_outside m at len written x h = ground (arith, h)

pub store_inside :
    (m : Buffer) (at len : ℕ) (written : Written) (x b : ℕ)
    → x < len
    → written x ≡ some b
    → store m at len written (at + x) ≡ b
unfolding store
store_inside m at len written x b inside e =
    let back : at + x - at ≡ x = omega arith in
    let here : written (at + x - at) ≡ some b = rw back e in ground (arith, inside, here)
