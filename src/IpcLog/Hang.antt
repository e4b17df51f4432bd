-- ===== src/IpcLog/Hang.antt =====
-- ios/IOS/IPCLog.cpp: a request to close waits for a response, which only the thread that waits could
-- take in.
use saoirse.Prelude.{◌≡◌, none, some, List, ◌∷◌, arith, ℤ}
use saoirse.IpcLog.{
  Request, close, ready, for_hook, LogState, handle_request, run, print, notify,
  notify_device_insertion, notify_device_removal, wait_for_start_request, send, Step, runs, prints,
  notifies, inserts, removes, starts, switches,
}

-- What the threads of the program and the channel may do from a state on.
pub data After : LogState → LogState → Type 0 where
  stay : {s : LogState} → After s s
  sends : {s s' s'' : LogState} (r : Request) → After s s' → send r s' ≡ some s'' → After s s''
  goes : {s s' s'' : LogState} → After s s' → Step s' s'' → After s s''

-- Waiting to close, with no response.
abbrev Stuck : Request → List (Request × ℤ) → LogState → Type 0
Stuck r replies s = (s.manager ≡ for_hook r) × (s.response ≡ none) × (s.replies ≡ replies)

Step-Stuck :
    (r : Request) (replies : List (Request × ℤ)) (s s' : LogState)
    → Step s s'
    → Stuck r replies s
    → Stuck r replies s'
unfolding run print notify notify_device_insertion notify_device_removal wait_for_start_request
Step-Stuck r replies s s' (runs e) stuck = absurd (ground (arith, e, stuck))
Step-Stuck r replies s s' (prints text e) stuck = absurd (ground (arith, e, stuck))
Step-Stuck r replies s s' (notifies e) stuck = absurd (ground (arith, e, stuck))
Step-Stuck r replies s s' (inserts id e) stuck = absurd (ground (arith, e, stuck))
Step-Stuck r replies s s' (removes id e) stuck = absurd (ground (arith, e, stuck))
Step-Stuck r replies s s' (starts e) stuck = ground (arith, e, stuck)
Step-Stuck r replies s s' (switches on) stuck = stuck

send-Stuck :
    (r q : Request) (replies : List (Request × ℤ)) (s s' : LogState)
    → send q s ≡ some s'
    → Stuck r replies s
    → Stuck r replies s'
unfolding send
send-Stuck r q replies s s' e stuck = ground (arith, e, stuck)

After-Stuck :
    {s s' : LogState} (r : Request) (replies : List (Request × ℤ))
    → After s s'
    → Stuck r replies s
    → Stuck r replies s'
After-Stuck r replies stay stuck = stuck
After-Stuck r replies (sends q before e) stuck =
    send-Stuck r q replies _ _ e (After-Stuck r replies before stuck)
After-Stuck r replies (goes before step) stuck =
    Step-Stuck r replies _ _ step (After-Stuck r replies before stuck)

-- When the manager takes a request to close while no response waits, then whatever the threads do and
-- the channel sends, no request is answered any more: neither that one nor any other.
pub close_without_hook_hangs :
    (s s1 s2 : LogState) (r : Request) (rest : List Request)
    → s.manager ≡ ready
    → s.ipc ≡ r ∷ rest
    → r.command ≡ close
    → s.response ≡ none
    → run s ≡ some s1
    → After s1 s2
    → (s2.manager ≡ for_hook r) × (s2.replies ≡ s.replies)
unfolding run handle_request
close_without_hook_hangs s s1 s2 r rest idle queue closes nobody e after =
    let stuck : Stuck r s.replies s1 = ground (arith, idle, queue, closes, nobody, e) in
    let (waits, still, same) = After-Stuck r s.replies after stuck in (waits, same)
