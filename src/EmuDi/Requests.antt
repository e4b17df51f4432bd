-- ===== src/EmuDi/Requests.antt =====
-- ios/EmuDI/EmuDI.cpp, the requests to `~dev/di`: reads of the patched disc, the two commands of
-- the channel, and the rest for the virtual disc or the real drive.
use saoirse.Prelude.{
  ℕ, ◌-◌, ◌*◌, ◌/◌, ◌%◌, ◌^◌, ◌∷◌, Bool, true, false, not, ◌||◌, Option, none, some, List, [], ltb,
  ◌==◌, if◌then◌else◌, ℤ, pos, negsuc, length, codes, str_eq,
}
use saoirse.EmuFs.IosError
use saoirse.EmuDi.DiError
use saoirse.EmuDi.DiIoctl
use saoirse.EmuDi.Table.{DiEnv, Vector, Buffer, blit, patch_at, patch_size, max_patches}
use saoirse.EmuDi.Disc.{command_size, parse_command, emu_ioctl, emu_ioctlv}
use saoirse.EmuDi.Read.{read_disc}

-- The variables of the module.
pub record DiState : Type 0 where
  pub di_patches : Buffer
  pub di_num_patches : ℕ
  pub game_started : Bool
  pub use_virtual_disc : Bool

-- An `IOSRequest`. The I/O buffer of an `ioctl` has an address, bytes and a length.
pub data Request : Type 0 where
  open_path : List ℕ → Request
  close : ℤ → Request
  ioctl : ℕ → List ℕ → ℕ → Buffer → ℕ → Request
  ioctlv : ℕ → ℕ → ℕ → (ℕ → Vector) → Request
  ipc_reply : ℤ → Request
  other : ℕ → Request

-- What a request fills: nothing, the I/O buffer of an `ioctl`, or the vectors of an `ioctlv`.
pub data Output : Type 0 where
  untouched : Output
  filled : Buffer → Output
  vectors : (ℕ → List ℕ) → Output

-- `DI_PROXY_IOCTL_PATCHDVD` and `DI_PROXY_IOCTL_STARTGAME`
abbrev pub patch_dvd : ℕ
patch_dvd = 0x00

abbrev pub start_game : ℕ
start_game = 0x01

-- `IOS_EINVAL` and `IOS_ENOMEM`
abbrev pub einval : ℤ
einval = negsuc 3

abbrev pub enomem : ℤ
enomem = negsuc 21

-- the fourth vector, where `OpenPartition` writes
abbrev tmd_out : List ℕ → (ℕ → List ℕ)
tmd_out bytes k = if k == 3 then bytes else []

module _ (E : DiEnv) where
  open E use {World, ios_close, ios_ioctl, ios_ioctlv}

  -- The reply, if there is one, and what changed. `none` stands for an abort.
  abbrev pub Served : Type 0
  Served = Option (Option ℤ × Output × DiState × World)

  abbrev reply : ℤ → Output → DiState → World → Served
  reply r out s w = some (some r, out, s, w)

  -- The case `Read` of `DI_DoNewIOCTL`.
  unfoldable pub ioctl_read : List ℕ → Buffer → ℕ → DiState → World → Served
  ioctl_read input io io_len s w =
      let block = parse_command input in
      let len = block.args 0 in
      if not (length input == command_size)
      then reply DiError.security untouched s w
      else if not (block.cmd == DiIoctl.read)
      then reply DiError.bad_argument untouched s w
      else if ltb io_len len
      then reply DiError.security untouched s w
      else elim (read_disc E s.use_virtual_disc (patch_at s.di_patches) s.di_num_patches
          (block.args 1) (len - len % 4) io w) [
            | none ↦ none
            | some (r, b, w') ↦ reply r (filled b) s w'
          ]

  -- The case `DI_PROXY_IOCTL_PATCHDVD`, before the game has started.
  unfoldable pub ioctl_patch_dvd : List ℕ → DiState → World → Served
  ioctl_patch_dvd input s w =
      let n = length input in
      let counted = record s { di_num_patches = n / patch_size } in
      if n == 0
      then reply einval untouched s w
      else if ltb (max_patches * patch_size) n
      then reply enomem untouched counted w
      else reply IosError.ok untouched (record counted { di_patches = blit s.di_patches 0 input }) w

  -- `DI_DoNewIOCTL`, which handles a request or leaves it (the inner `none`).
  unfoldable pub do_new_ioctl : ℕ → List ℕ → Buffer → ℕ → DiState → World → Option Served
  do_new_ioctl cmd input io io_len s w =
      if cmd % 2 ^ 8 == DiIoctl.read
      then some (ioctl_read input io io_len s w)
      else if cmd == patch_dvd
      then (if s.game_started then none else some (ioctl_patch_dvd input s w))
      else if cmd == start_game
      then if s.game_started
        then none
        else some (reply IosError.ok untouched (record s { game_started = true }) w)
      else none

  -- `ReqIoctl`
  unfoldable pub forward_ioctl : ℕ → List ℕ → ℕ → Buffer → ℕ → DiState → World → Served
  forward_ioctl cmd input out io io_len s w =
      let (r, bytes, w1) = emu_ioctl E (parse_command input) (cmd % 2 ^ 8) out io_len w in
      let (r', bytes', w2) = ios_ioctl cmd input io_len w in
      if s.use_virtual_disc
      then if ltb (length input) command_size
        then reply DiError.security untouched s w
        else reply r (filled (blit io 0 bytes)) s w1
      else reply r' (filled (blit io 0 bytes')) s w2

  unfoldable pub req_ioctl : ℕ → List ℕ → ℕ → Buffer → ℕ → DiState → World → Served
  req_ioctl cmd input out io io_len s w = elim (do_new_ioctl cmd input io io_len s w) [
    | some served ↦ served
    | none ↦ forward_ioctl cmd input out io io_len s w
  ]

  -- `ReqIoctlv`
  unfoldable pub req_ioctlv : ℕ → ℕ → ℕ → (ℕ → Vector) → DiState → World → Served
  req_ioctlv cmd in_count io_count vec s w =
      let block = parse_command (vec 0).bytes in
      let block_len = (vec 0).len in
      let (r, bytes, w1) = emu_ioctlv E block (cmd % 2 ^ 8) in_count io_count vec w in
      let (r', out, w2) = ios_ioctlv cmd in_count io_count vec w in
      if s.use_virtual_disc
      then if ltb in_count 1 || ltb block_len command_size
        then reply DiError.security untouched s w
        else reply r (vectors (tmd_out bytes)) s w1
      else reply r' (vectors out) s w2

  -- `HandleRequest`, with `ReqOpen` and `ReqClose`
  unfoldable pub handle_request : Request → DiState → World → Served
  handle_request (open_path path) s w =
      if not (str_eq path (codes "~dev/di"))
      then reply IosError.not_found untouched s w
      else reply (pos 0) untouched s w
  handle_request (close fd) s w = let (r, w') = ios_close fd w in reply r untouched s w'
  handle_request (ioctl cmd input out io io_len) s w = req_ioctl cmd input out io io_len s w
  handle_request (ioctlv cmd in_count io_count vec) s w = req_ioctlv cmd in_count io_count vec s w
  handle_request (ipc_reply r) s w = reply r untouched s w
  handle_request (other cmd) s w = some (none, untouched, s, w)

  -- The loop of `ThreadEntry` over the requests that arrive.
  unfoldable pub handle_requests : List Request → DiState → World → Option (DiState × World)
  handle_requests [] s w = some (s, w)
  handle_requests (r ∷ rs) s w = elim (handle_request r s w) [
    | none ↦ none
    | some (answer, out, s', w') ↦ handle_requests rs s' w'
  ]

-- The variables at the start: zeroes, with the virtual disc that `ThreadEntry` sets.
unfoldable pub di_reset : DiState
di_reset = record {
  di_patches = λ x. 0;
  di_num_patches = 0;
  game_started = false;
  use_virtual_disc = true;
}
