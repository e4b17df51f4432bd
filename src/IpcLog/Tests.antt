-- ===== src/IpcLog/Tests.antt =====
-- Runs: a request that waits is answered by a print, and a request to close that nothing answers.
use saoirse.Prelude.{
  leb, ℤ, if◌then◌else◌, ◌++◌, ◌+◌, ◌≡◌, refl, false, Option, none, some, [], ◌∷◌, codes, str_eq,
  List, arith,
}
use saoirse.Prelude.Buffers.{Buffer}
use saoirse.EmuFs.IosError
use saoirse.Kernel.Clock.{Clock}
use saoirse.IpcLog.LogReply
use saoirse.IpcLog.{
  Request, open_path, close, ioctl, for_hook, LogState, handle_request, run, print, send, Reachable,
  made, sends, goes, runs, prints, new_log,
}
use saoirse.IpcLog.Counts.{count, held, waiting, answered, each_answered_once}
use saoirse.IpcLog.Client.{
  LogClient, no_trigger, run_thread, set_event_waiting_queue, notices, devices,
  resources_and_devices_reported,
}
use saoirse.IpcLog.Hang.{After, close_without_hook_hangs}
use saoirse.IpcLog.Hang

abbrev clock : Clock
clock = record {
  timers = λ i. 0;
  ticks = λ i. 0;
  timer_index = 0;
  base_epoch = 0;
  timer_started = false;
}

abbrev zeroes : Buffer
zeroes x = 0

abbrev hook : Request
hook = record { id = 1; command = ioctl 0 0x40 0 0x1000 256 }

abbrev closing : Request
closing = record { id = 2; command = close }

abbrev or_new : Option LogState → LogState
or_new none = new_log clock zeroes
or_new (some s) = s

-- The hook is sent, taken and left waiting, and a line is printed.
abbrev sent : LogState
sent = or_new (send hook (new_log clock zeroes))

abbrev taken : LogState
taken = or_new (run sent)

abbrev left : LogState
left = or_new (run taken)

abbrev printed : LogState
printed = or_new (print (λ x. 65) left)

printed-Reachable : Reachable (hook ∷ []) printed
unfolding send run print handle_request new_log
printed-Reachable =
    goes (goes (goes (sends hook (made clock zeroes) refl) (runs refl)) (runs refl))
      (prints (λ x. 65) refl)

each_answered_once_example :
    count 1 (hook ∷ [])
    ≡ count 1 printed.ipc
      + held 1 printed.manager
      + waiting 1 printed.response
      + answered 1 printed.replies
each_answered_once_example = each_answered_once (hook ∷ []) printed printed-Reachable 1

hook_answered : printed.replies ≡ (hook, LogReply.print) ∷ []
unfolding send run print handle_request new_log
hook_answered = refl

line_written : printed.memory 0x10FF ≡ 65
unfolding send run print handle_request new_log
line_written = refl

-- A request to close comes first, and a hook after it.
abbrev asked : LogState
asked = or_new (send closing (new_log clock zeroes))

abbrev waits : LogState
waits = or_new (run asked)

abbrev late : LogState
late = or_new (send hook waits)

close_taken : run asked ≡ some waits
unfolding send run handle_request new_log
close_taken = refl

late_sent : send hook waits ≡ some late
unfolding send run handle_request new_log
late_sent = refl

close_without_hook_hangs_example :
    (late.manager ≡ for_hook closing) × (late.replies ≡ asked.replies)
unfolding send new_log
close_without_hook_hangs_example =
    close_without_hook_hangs asked waits late closing [] refl refl refl refl close_taken
      (Hang.sends hook Hang.stay late_sent)

other_path :
    (handle_request (record { id = 3; command = open_path (codes "/dev/es") }) asked).replies
    ≡ (record { id = 3; command = open_path (codes "/dev/es") }, IosError.not_found) ∷ []
unfolding send handle_request new_log str_eq
other_path = refl

-- The replies to the channel: three resources and a device, and what comes after the end is not read.
abbrev replies : List (ℤ × Buffer)
replies =
    (LogReply.notice, zeroes)
    ∷ (LogReply.dev_insert, zeroes)
    ∷ (LogReply.notice, zeroes)
    ∷ (LogReply.notice, zeroes)
    ∷ (LogReply.close, zeroes)
    ∷ (LogReply.notice, zeroes)
    ∷ []

abbrev channel : LogClient
channel = record {
  event_count = 5;
  trigger_event_count = no_trigger;
  events = 0;
  handler_queue = [];
  printed = [];
}

resources_and_devices_reported_example :
    ((run_thread replies (set_event_waiting_queue 3 channel)).events
      ≡ (if leb 3 (notices replies) then 1 else 0))
    × ((run_thread replies (set_event_waiting_queue 3 channel)).handler_queue
        ≡ channel.handler_queue ++ devices replies)
resources_and_devices_reported_example =
    resources_and_devices_reported replies channel 3 (omega arith) (omega arith) (omega arith)

three_noticed : notices replies ≡ 3
three_noticed = refl
