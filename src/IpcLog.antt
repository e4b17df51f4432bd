-- ===== src/IpcLog.antt =====
-- ios/IOS/IPCLog.cpp: the device `/dev/saoirse`, whose requests the channel leaves open until there is
-- something to tell it. The manager's thread handles requests; the threads that print or notify take
-- the requests that wait, one at a time.
mod LogReply
mod Counts
mod Client
mod Hang
mod Tests
use saoirse.Prelude.{
  ℕ, ◌+◌, Bool, true, false, ◌||◌, not, Option, none, some, List, [], ◌∷◌, ◌++◌, length, ltb, ◌==◌,
  if◌then◌else◌, ◌≡◌, aligned, codes, str_eq, ℤ, pos,
}
use saoirse.Prelude.Buffers.{Buffer, copy, word, double_word}
use saoirse.EmuFs.IosError
use saoirse.IpcLog.LogReply
use saoirse.Kernel.{unaligned_memcpy}
use saoirse.Kernel.Clock.{Clock, set_time}

-- `IPCLog::printSize`, and the room in `m_ipcQueue`
abbrev pub print_size : ℕ
print_size = 256

abbrev pub queue_size : ℕ
queue_size = 8

-- `IOS::Command` with its arguments: the path, or the number of an ioctl with the addresses and
-- lengths of its buffers.
pub data Command : Type 0 where
  open_path : List ℕ → Command
  close : Command
  ioctl : ℕ → ℕ → ℕ → ℕ → ℕ → Command
  other : Command

-- A request, told apart from others by a number.
pub record Request : Type 0 where
  pub id : ℕ
  pub command : Command

-- Where the manager's thread waits: for a request, for room in the queue of responses or of starts,
-- or for a response to close.
pub data Waits : Type 0 where
  ready : Waits
  for_room for_start for_hook : Request → Waits

-- The three queues, `Log::ipcLogEnabled`, the clock of the system, memory, and the replies given so
-- far, the last one first.
pub record LogState : Type 0 where
  pub ipc : List Request
  pub response : Option Request
  pub start : Bool
  pub enabled : Bool
  pub manager : Waits
  pub clock : Clock
  pub memory : Buffer
  pub replies : List (Request × ℤ)

-- `req->reply(ret)`
abbrev pub reply : Request → ℤ → LogState → LogState
reply r ret s = record s { replies = (r, ret) ∷ s.replies }

-- `req->ioctl.io`
abbrev pub io_of : Request → ℕ
io_of r = elim r.command [ ioctl cmd in_ in_len io io_len ↦ io | _ ↦ 0 ]

-- `HandleRequest`, up to the first queue that it may have to wait for.
unfoldable pub handle_request : Request → LogState → LogState
handle_request r s = elim r.command [
  | open_path path ↦
      if not (str_eq path (codes "/dev/saoirse"))
      then reply r IosError.not_found s
      else if not s.enabled
      then reply r IosError.not_found s
      else reply r IosError.ok s
  | close ↦ record s { enabled = false; manager = for_hook r }
  | ioctl cmd in_ in_len io io_len ↦
      if cmd == 0
      then (if not (io_len == print_size) || not (aligned in_ 32)
          then reply r IosError.invalid s
          else record s { manager = for_room r })
      else if cmd == 1
      then record s { manager = for_start r }
      else if cmd == 2
      then (if not (in_len == 12) || not (aligned in_ 4)
          then reply r IosError.invalid s
          else reply r IosError.ok (record s {
            clock = set_time (word s.memory in_) (double_word s.memory (in_ + 4)) s.clock;
          }))
      else reply r IosError.invalid s
  | other ↦ reply r IosError.invalid s
]

-- The manager's thread: the next request, or what comes after its wait. `none` is that it waits on.
unfoldable pub run : LogState → Option LogState
run s = elim s.manager [
  | ready ↦ elim s.ipc [ [] ↦ none | r ∷ rest ↦ some (handle_request r (record s { ipc = rest })) ]
  | for_room r ↦ elim s.response [
    | none ↦ some (record s { response = some r; manager = ready })
    | some q ↦ none
  ]
  | for_start r ↦
      if s.start
      then none
      else some (reply r IosError.ok (record s { start = true; manager = ready }))
  | for_hook r ↦ elim s.response [
    | none ↦ none
    | some q ↦ some (
        reply r IosError.ok
          (reply q LogReply.close (record s { response = none; manager = ready })))
  ]
]

-- A thread that tells the channel something: it takes the response that waits, writes to its buffer
-- and replies.
abbrev pub tell : ℤ → (Request → Buffer → Buffer) → LogState → Option LogState
tell kind fill s = elim s.response [
  | none ↦ none
  | some q ↦ some (reply q kind (record s { response = none; memory = fill q s.memory }))
]

-- `Print`
unfoldable pub print : Buffer → LogState → Option LogState
print text s = tell LogReply.print (λ q m. copy m (io_of q) text 0 print_size) s

-- `Notify`
unfoldable pub notify : LogState → Option LogState
notify s = tell LogReply.notice (λ q m. m) s

-- `NotifyDeviceInsertion` and `NotifyDeviceRemoval`
unfoldable pub notify_device_insertion : ℕ → LogState → Option LogState
notify_device_insertion id s =
    tell LogReply.dev_insert (λ q m. unaligned_memcpy (io_of q) (λ x. id) 1 m) s

unfoldable pub notify_device_removal : ℕ → LogState → Option LogState
notify_device_removal id s =
    tell LogReply.dev_remove (λ q m. unaligned_memcpy (io_of q) (λ x. id) 1 m) s

-- `WaitForStartRequest`
unfoldable pub wait_for_start_request : LogState → Option LogState
wait_for_start_request s = if s.start then some (record s { start = false }) else none

-- The channel sends a request, where the queue has room.
unfoldable pub send : Request → LogState → Option LogState
send r s =
    if ltb (length s.ipc) queue_size then some (record s { ipc = s.ipc ++ (r ∷ []) }) else none

-- A step of one of the threads, from what the program may also do: turn the log on or off.
pub data Step : LogState → LogState → Type 0 where
  runs : {s s' : LogState} → run s ≡ some s' → Step s s'
  prints : {s s' : LogState} (text : Buffer) → print text s ≡ some s' → Step s s'
  notifies : {s s' : LogState} → notify s ≡ some s' → Step s s'
  inserts : {s s' : LogState} (id : ℕ) → notify_device_insertion id s ≡ some s' → Step s s'
  removes : {s s' : LogState} (id : ℕ) → notify_device_removal id s ≡ some s' → Step s s'
  starts : {s s' : LogState} → wait_for_start_request s ≡ some s' → Step s s'
  switches : {s : LogState} (on : Bool) → Step s (record s { enabled = on })

-- The constructor, before the log is turned on.
unfoldable pub new_log : Clock → Buffer → LogState
new_log c m = record {
  ipc = [];
  response = none;
  start = false;
  enabled = false;
  manager = ready;
  clock = c;
  memory = m;
  replies = [];
}

-- The states that steps lead to, with the requests sent so far, the last one first.
pub data Reachable : List Request → LogState → Type 0 where
  made : (c : Clock) (m : Buffer) → Reachable [] (new_log c m)
  sends :
      {rs : List Request} {s s' : LogState} (r : Request)
      → Reachable rs s
      → send r s ≡ some s'
      → Reachable (r ∷ rs) s'
  goes : {rs : List Request} {s s' : LogState} → Reachable rs s → Step s s' → Reachable rs s'
