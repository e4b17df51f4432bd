-- ===== src/EmuEs/Commands.antt =====
-- ios/IOS/EmuES.cpp: the title context and the cases of `ReqIoctlv`, one function for each command.
use saoirse.Prelude.{
  ℕ, ◌*◌, ◌/◌, ◌%◌, ◌^◌, Bool, true, false, ◌&&◌, not, Option, none, some, ◌==◌, if◌then◌else◌,
  aligned, ℤ, eq_ℤ,
}
use saoirse.Prelude.Buffers.{Buffer, word, double_word, copy, shift}
use saoirse.EmuEs.EsError
use saoirse.EmuEs.Ioctl.{ticket_size, ticket_view_size, ticket_title_id}
use saoirse.EmuEs.Calls.{Es, u64_bytes}
use saoirse.EmuEs.Calls

-- `s_useTitleCtx`, `s_titleID` and `s_ticket`
pub record TitleContext : Type 0 where
  pub use_title_ctx : Bool
  pub title_id : ℕ
  pub ticket : Buffer

-- `DIVerify`
unfoldable pub di_verify : ℕ → Buffer → TitleContext → ℤ × TitleContext
di_verify id ticket s =
    let named = record s { title_id = id } in
    if not (double_word ticket ticket_title_id == id) then (EsError.invalid_ticket, named) else (
      EsError.ok,
      record named { ticket = copy s.ticket 0 ticket 0 ticket_size; use_title_ctx = true },
    )

-- `IOS::Vector`: an address and a length
pub record Vector : Type 0 where
  pub address : ℕ
  pub len : ℕ

-- `vec[i].len != n || !aligned(vec[i].data, a)`, negated
abbrev pub fits_at : Vector → ℕ → ℕ → Bool
fits_at v n a = v.len == n && aligned v.address a

-- `Config::BlockIOSReload`
abbrev pub block_ios_reload : Bool
block_ios_reload = false

-- the system menu
abbrev pub system_menu : ℕ
system_menu = 0x0000000100000002

-- `*out = v` for a 64-bit number
abbrev pub put_u64 : Buffer → ℕ → ℕ → Buffer
put_u64 m out v = copy m out (u64_bytes v) 0 8

module _ (E : Es) where
  open E use {World}

  abbrev pub Answer : Type 0
  Answer = ℤ × Buffer × World

  -- A case of `ReqIoctlv`, on the counts of the vectors, the vectors, memory and the real ES.
  abbrev pub Case : Type 0
  Case = ℕ → ℕ → (ℕ → Vector) → Buffer → World → Answer

  -- `GetDeviceID`
  unfoldable pub req_get_device_id : Case
  req_get_device_id ins outs vec m w =
      if not (ins == 0 && outs == 1)
      then (EsError.invalid, m, w)
      else if not (fits_at (vec 0) 4 4)
      then (EsError.invalid, m, w)
      else Calls.get_device_id E (vec 0).address m w

  -- `LaunchTitle`, by whether IOS reloads are blocked: a view that the ES gives is stored in the
  -- local one. `none` is a failed assertion.
  unfoldable pub launch_title : Bool → ℕ → Buffer → Buffer → World → Option Answer
  launch_title blocked id view m w =
      let redirected = blocked && id / 2 ^ 32 == 1 && not (id % 2 ^ 32 == 2) in
      let (found, view', w1) = Calls.get_ticket_views E system_menu 1 0 view w in
      let (ret, w2) = Calls.launch_title E system_menu view' w1 in
      let (direct, w3) = Calls.launch_title E id view w in
      if not redirected
      then some (direct, m, w3)
      else if eq_ℤ found EsError.ok
      then some (ret, m, w2)
      else none

  unfoldable pub req_launch_title : Bool → ℕ → ℕ → (ℕ → Vector) → Buffer → World → Option Answer
  req_launch_title blocked ins outs vec m w =
      let id = double_word m (vec 0).address in
      let view = shift m (vec 1).address in
      if not (ins == 2 && outs == 0)
      then some (EsError.invalid, m, w)
      else if not (fits_at (vec 0) 8 4)
      then some (EsError.invalid, m, w)
      else if not (fits_at (vec 1) ticket_view_size 4)
      then some (EsError.invalid, m, w)
      else launch_title blocked id view m w

  -- `GetOwnedTitlesCount`
  unfoldable pub req_get_owned_titles_count : Case
  req_get_owned_titles_count ins outs vec m w =
      if not (ins == 0 && outs == 1)
      then (EsError.invalid, m, w)
      else if not (fits_at (vec 0) 4 4)
      then (EsError.invalid, m, w)
      else Calls.get_owned_titles_count E (vec 0).address m w

  -- `GetTitlesCount`
  unfoldable pub req_get_titles_count : Case
  req_get_titles_count ins outs vec m w =
      if not (ins == 0 && outs == 1)
      then (EsError.invalid, m, w)
      else if not (fits_at (vec 0) 4 4)
      then (EsError.invalid, m, w)
      else Calls.get_titles_count E (vec 0).address m w

  -- `GetTitles`
  unfoldable pub req_get_titles : Case
  req_get_titles ins outs vec m w =
      let count = word m (vec 0).address in
      if not (ins == 1 && outs == 1)
      then (EsError.invalid, m, w)
      else if not (fits_at (vec 0) 4 4)
      then (EsError.invalid, m, w)
      else if not (fits_at (vec 1) (count * 8) 4)
      then (EsError.invalid, m, w)
      else Calls.get_titles E count (vec 1).address m w

  -- `GetTitleContentsCount`
  unfoldable pub req_get_title_contents_count : Case
  req_get_title_contents_count ins outs vec m w =
      let id = double_word m (vec 0).address in
      if not (ins == 1 && outs == 1)
      then (EsError.invalid, m, w)
      else if not (fits_at (vec 0) 8 4)
      then (EsError.invalid, m, w)
      else if not (fits_at (vec 1) 4 4)
      then (EsError.invalid, m, w)
      else Calls.get_title_contents_count E id (vec 1).address m w

  -- The call is given the vector of the count.
  -- `GetTitleContents`
  unfoldable pub req_get_title_contents : Case
  req_get_title_contents ins outs vec m w =
      let id = double_word m (vec 0).address in
      let count = word m (vec 1).address in
      if not (ins == 2 && outs == 1)
      then (EsError.invalid, m, w)
      else if not (fits_at (vec 0) 8 4)
      then (EsError.invalid, m, w)
      else if not (fits_at (vec 1) 4 4)
      then (EsError.invalid, m, w)
      else if not (fits_at (vec 2) (count * 4) 4)
      then (EsError.invalid, m, w)
      else Calls.get_title_contents E id count (vec 1).address m w

  -- `GetNumTicketViews`
  unfoldable pub req_get_num_ticket_views : Case
  req_get_num_ticket_views ins outs vec m w =
      let id = double_word m (vec 0).address in
      if not (ins == 1 && outs == 1)
      then (EsError.invalid, m, w)
      else if not (fits_at (vec 0) 8 4)
      then (EsError.invalid, m, w)
      else if not (fits_at (vec 1) 4 4)
      then (EsError.invalid, m, w)
      else Calls.get_num_ticket_views E id (vec 1).address m w

  -- `GetTicketViews`
  unfoldable pub req_get_ticket_views : Case
  req_get_ticket_views ins outs vec m w =
      let id = double_word m (vec 0).address in
      let count = word m (vec 1).address in
      if not (ins == 2 && outs == 1)
      then (EsError.invalid, m, w)
      else if not (fits_at (vec 0) 8 4)
      then (EsError.invalid, m, w)
      else if not (fits_at (vec 1) 4 4)
      then (EsError.invalid, m, w)
      else if not (fits_at (vec 2) (count * ticket_view_size) 4)
      then (EsError.invalid, m, w)
      else Calls.get_ticket_views E id count (vec 2).address m w

  -- `GetTMDViewSize`
  unfoldable pub req_get_tmd_view_size : Case
  req_get_tmd_view_size ins outs vec m w =
      let id = double_word m (vec 0).address in
      if not (ins == 1 && outs == 1)
      then (EsError.invalid, m, w)
      else if not (fits_at (vec 0) 8 4)
      then (EsError.invalid, m, w)
      else if not (fits_at (vec 1) 4 4)
      then (EsError.invalid, m, w)
      else Calls.get_tmd_view_size E id (vec 1).address m w

  -- `GetTMDView`
  unfoldable pub req_get_tmd_view : Case
  req_get_tmd_view ins outs vec m w =
      let id = double_word m (vec 0).address in
      if not (ins == 1 && outs == 1)
      then (EsError.invalid, m, w)
      else if not (fits_at (vec 0) 8 4)
      then (EsError.invalid, m, w)
      else if not (aligned (vec 1).address 4)
      then (EsError.invalid, m, w)
      else Calls.get_tmd_view E id (vec 1).address (vec 1).len m w

  -- `DIGetTicketView`: without a ticket, the one of the title context. The alignment tested along
  -- with the output's length is that of the input.
  unfoldable pub req_di_get_ticket_view : TitleContext → Case
  req_di_get_ticket_view s ins outs vec m w =
      let given = some (shift m (vec 0).address) in
      let kept = if s.use_title_ctx then some s.ticket else none in
      let ticket = if (vec 0).len == 0 then kept else given in
      if not (ins == 1 && outs == 1)
      then (EsError.invalid, m, w)
      else if not ((vec 0).len == 0) && not (fits_at (vec 0) ticket_size 4)
      then (EsError.invalid, m, w)
      else if not ((vec 1).len == ticket_view_size && aligned (vec 0).address 4)
      then (EsError.invalid, m, w)
      else Calls.di_get_ticket_view E ticket (vec 1).address m w

  -- `GetDataDir`
  unfoldable pub req_get_data_dir : Case
  req_get_data_dir ins outs vec m w =
      let id = double_word m (vec 0).address in
      if not (ins == 1 && outs == 1)
      then (EsError.invalid, m, w)
      else if not (fits_at (vec 0) 8 4)
      then (EsError.invalid, m, w)
      else if not ((vec 1).len == 30)
      then (EsError.invalid, m, w)
      else Calls.get_data_dir E id (vec 1).address m w

  -- `GetDeviceCert`
  unfoldable pub req_get_device_cert : Case
  req_get_device_cert ins outs vec m w =
      if not (ins == 0 && outs == 1)
      then (EsError.invalid, m, w)
      else if not (fits_at (vec 0) 0x180 4)
      then (EsError.invalid, m, w)
      else Calls.get_device_cert E (vec 0).address m w

  -- `GetTitleID`
  unfoldable pub req_get_title_id : TitleContext → Case
  req_get_title_id s ins outs vec m w =
      if not (ins == 0 && outs == 1)
      then (EsError.invalid, m, w)
      else if not (fits_at (vec 0) 8 4)
      then (EsError.invalid, m, w)
      else if s.use_title_ctx
      then (EsError.ok, put_u64 m (vec 0).address s.title_id, w)
      else Calls.get_title_id E (vec 0).address m w
