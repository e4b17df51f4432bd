-- ===== src/IpcLog/Client.antt =====
-- channel/Main/IOSBoot.cpp, the channel's side of the log (`IOSBoot::IPCLog`): it counts the resources
-- that are ready and hands on the notices of devices.
use saoirse.Prelude.{
  ℕ, ◌+◌, ◌-◌, ◌^◌, ◌≤◌, ◌&&◌, pos, length, add32, ◌<◌, ◌≡◌, sym, ap, refl, Bool, true, false, ◌||◌,
  List, [], ◌∷◌, ◌++◌, leb, ltb, ◌==◌, if◌then◌else◌, ℤ, eq_ℤ, is_neg, arith,
}
use saoirse.Prelude.Buffers.{Buffer}
use saoirse.IpcLog.LogReply

-- `HandlerReq`, and the members of `IOSBoot::IPCLog`: the counts are
-- the words of ints, so that -1 is 2^32 - 1, and `events` counts the messages sent to the queue that waits for resources. `printed` has the
-- lines printed, the last one first.
pub record HandlerReq : Type 0 where
  pub cmd : ℤ
  pub buffer : Buffer

pub record LogClient : Type 0 where
  pub event_count : ℕ
  pub trigger_event_count : ℕ
  pub events : ℕ
  pub handler_queue : List HandlerReq
  pub printed : List Buffer

-- The word of -1.
abbrev pub no_trigger : ℕ
no_trigger = 2 ^ 32 - 1

-- `setEventWaitingQueue`
unfoldable pub set_event_waiting_queue : ℕ → LogClient → LogClient
set_event_waiting_queue count c = record c {
  event_count = 0;
  trigger_event_count = count;
  events = 0;
}

-- The case of a notice in `handleEvent`.
unfoldable pub count_event : LogClient → LogClient
count_event c =
    let n = add32 c.event_count 1 in
    if n == c.trigger_event_count
    then record c { event_count = n; trigger_event_count = no_trigger; events = c.events + 1 }
    else record c { event_count = n }

abbrev pub is_device : ℤ → Bool
is_device reply = eq_ℤ reply LogReply.dev_insert || eq_ℤ reply LogReply.dev_remove

-- `handleEvent`, on what the request returned and what it left in the buffer: whether to go on.
unfoldable pub handle_event : ℤ → Buffer → LogClient → Bool × LogClient
handle_event result log_buffer c =
    if is_neg result
    then (false, c)
    else if eq_ℤ result LogReply.close
    then (false, c)
    else if eq_ℤ result LogReply.print
    then (true, record c { printed = log_buffer ∷ c.printed })
    else if eq_ℤ result LogReply.notice
    then (true, count_event c)
    else if is_device result
    then (
      true,
      record c {
        handler_queue = c.handler_queue ++ (record { cmd = result; buffer = log_buffer } ∷ []);
      },
    )
    else (true, c)

-- `threadEntry`, on the replies that its requests get.
unfoldable pub run_thread : List (ℤ × Buffer) → LogClient → LogClient
run_thread [] c = c
run_thread ((result, log_buffer) ∷ rest) c =
    let (more, c1) = handle_event result log_buffer c in
    let after = run_thread rest c1 in if more then after else c1

-- By the numbers of the replies: the thread ends at a negative one or at 0, a 2 is a notice, and a 3
-- and a 4 tell of a device.
abbrev pub is_last : ℤ → Bool
is_last result = is_neg result || eq_ℤ result (pos 0)

abbrev pub notices : List (ℤ × Buffer) → ℕ
notices [] = 0
notices ((result, b) ∷ rest) =
    let more = notices rest in
    if is_last result then 0 else if eq_ℤ result (pos 2) then more + 1 else more

abbrev pub devices : List (ℤ × Buffer) → List HandlerReq
devices [] = []
devices ((result, b) ∷ rest) =
    let more = devices rest in
    if is_last result
    then []
    else if eq_ℤ result (pos 3) || eq_ℤ result (pos 4)
    then record { cmd = result; buffer = b } ∷ more
    else more

-- How many messages are sent for resources yet to come.
abbrev due : LogClient → ℕ → ℕ
due c more =
    if c.trigger_event_count == no_trigger
    then 0
    else if leb (c.trigger_event_count - c.event_count) more
    then 1
    else 0

-- The count has not reached what is waited for, and `more` notices keep it in an int.
abbrev is_below : LogClient → ℕ → Bool
is_below c more =
    (c.trigger_event_count == no_trigger
      || (ltb c.event_count c.trigger_event_count && ltb c.trigger_event_count (2 ^ 31)))
    && ltb (c.event_count + more) (2 ^ 31)

count_event-due :
    (c : LogClient) (more : ℕ)
    → is_below c (more + 1) ≡ true
    → ((count_event c).events + due (count_event c) more ≡ c.events + due c (more + 1))
      × (is_below (count_event c) more ≡ true)
unfolding count_event
count_event-due c more below = (ground (arith, below), ground (arith, below))

run_thread-events :
    (rs : List (ℤ × Buffer)) (c : LogClient)
    → is_below c (notices rs) ≡ true
    → (run_thread rs c).events ≡ c.events + due c (notices rs)
unfolding run_thread handle_event
run_thread-events [] c below = ground (arith, below)
run_thread-events ((result, b) ∷ rest) c below =
    let counted = count_event-due c (notices rest) in
    let told = run_thread-events rest (count_event c) in
    let printed = run_thread-events rest (record c { printed = b ∷ c.printed }) in
    let handed = run_thread-events rest (record c {
      handler_queue = c.handler_queue ++ (record { cmd = result; buffer = b } ∷ []);
    }) in
    let passed = run_thread-events rest c in
    ground (arith, below, counted, told, printed, handed, passed)

notices_at_most : (rs : List (ℤ × Buffer)) → notices rs ≤ length rs
notices_at_most [] = omega arith
notices_at_most ((result, b) ∷ rest) = ground (arith, notices_at_most rest)

append_assoc : {A : Type 0} (xs ys zs : List A) → (xs ++ ys) ++ zs ≡ xs ++ (ys ++ zs)
append_assoc [] ys zs = refl
append_assoc (x ∷ xs) ys zs = ap (λ l. x ∷ l) (append_assoc xs ys zs)

append_nil : {A : Type 0} (xs : List A) → xs ++ [] ≡ xs
append_nil [] = refl
append_nil (x ∷ xs) = ap (λ l. x ∷ l) (append_nil xs)

run_thread-queue :
    (rs : List (ℤ × Buffer)) (c : LogClient)
    → (run_thread rs c).handler_queue ≡ c.handler_queue ++ devices rs
unfolding run_thread handle_event count_event
run_thread-queue [] c = sym (append_nil c.handler_queue)
run_thread-queue ((result, b) ∷ rest) c =
    let request : HandlerReq = record { cmd = result; buffer = b } in
    let told = run_thread-queue rest (count_event c) in
    let printed = run_thread-queue rest (record c { printed = b ∷ c.printed }) in
    let handed =
      run_thread-queue rest (record c { handler_queue = c.handler_queue ++ (request ∷ []) }) in
    let moved = append_assoc c.handler_queue (request ∷ []) (devices rest) in
    let passed = run_thread-queue rest c in
    let nothing = append_nil c.handler_queue in
    ground (arith, told, printed, handed, moved, passed, nothing)

-- When the channel waits for a number of resources, from 1 to 2^31 - 1, and its thread then gets fewer
-- than 2^31 replies: one message is sent to the queue that waits exactly where the replies 2 before
-- the end of the thread, which is a negative reply or 0, are as many, and never a second one; and the
-- replies 3 and 4 before that end are handed on, each with its buffer, in their order.
pub resources_and_devices_reported :
    (rs : List (ℤ × Buffer)) (c : LogClient) (n : ℕ)
    → 0 < n
    → n < 2 ^ 31
    → length rs < 2 ^ 31
    → ((run_thread rs (set_event_waiting_queue n c)).events ≡ (if leb n (notices rs) then 1 else 0))
      × ((run_thread rs (set_event_waiting_queue n c)).handler_queue
          ≡ c.handler_queue ++ devices rs)
unfolding set_event_waiting_queue
resources_and_devices_reported rs c n some_ in_int few =
    let waiting = set_event_waiting_queue n c in
    let below : is_below waiting (notices rs) ≡ true =
      ground (arith, some_, in_int, few, notices_at_most rs) in
    (ground (arith, in_int, run_thread-events rs waiting below), run_thread-queue rs waiting)
