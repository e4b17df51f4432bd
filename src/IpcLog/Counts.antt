-- ===== src/IpcLog/Counts.antt =====
-- ios/IOS/IPCLog.cpp: no request is lost, and none is answered twice.
use saoirse.Prelude.{
  ℕ, ◌+◌, ◌≡◌, refl, ◌∙◌, sym, ap, Option, none, some, List, [], ◌∷◌, ◌++◌, ◌==◌, if◌then◌else◌,
  arith, ℤ,
}
use saoirse.IpcLog.{
  Request, Waits, ready, for_room, for_start, for_hook, LogState, handle_request, run, print,
  notify, notify_device_insertion, notify_device_removal, wait_for_start_request, send, Step, runs,
  prints, notifies, inserts, removes, starts, switches, Reachable, made, sends, goes, new_log,
}

abbrev one_if : ℕ → Request → ℕ
one_if i r = if r.id == i then 1 else 0

-- How many of some requests, or of the requests of some replies, have a number.
abbrev pub count : ℕ → List Request → ℕ
count i [] = 0
count i (r ∷ rs) = one_if i r + count i rs

abbrev pub answered : ℕ → List (Request × ℤ) → ℕ
answered i [] = 0
answered i ((r, ret) ∷ rest) = one_if i r + answered i rest

abbrev pub waiting : ℕ → Option Request → ℕ
waiting i none = 0
waiting i (some r) = one_if i r

abbrev pub held : ℕ → Waits → ℕ
held i ready = 0
held i (for_room r) = one_if i r
held i (for_start r) = one_if i r
held i (for_hook r) = one_if i r

unfoldable total : ℕ → LogState → ℕ
total i s = count i s.ipc + held i s.manager + waiting i s.response + answered i s.replies

count-append :
    (i : ℕ) (rs : List Request) (r : Request) → count i (rs ++ (r ∷ [])) ≡ count i rs + one_if i r
count-append i [] r = omega arith
count-append i (x ∷ rs) r = omega (arith, count-append i rs r)

total-handle_request :
    (i : ℕ) (r : Request) (s : LogState)
    → s.manager ≡ ready
    → total i (handle_request r s) ≡ total i s + one_if i r
unfolding total handle_request
total-handle_request i r s idle = ground (arith, idle)

-- With the manager's next request taken from the queue.
total-next :
    (i : ℕ) (r : Request) (rest : List Request) (s : LogState)
    → s.ipc ≡ r ∷ rest
    → s.manager ≡ ready
    → total i (handle_request r (record s { ipc = rest })) ≡ total i s
unfolding total
total-next i r rest s queue idle =
    let taken : LogState = record s { ipc = rest } in
    let handled = total-handle_request i r taken idle in ground (arith, queue, handled)

-- By what the manager's thread waits for, and by its queue.
total-run_at :
    (i : ℕ) (s s' : LogState) (at : Waits) (queue : List Request)
    → s.manager ≡ at
    → s.ipc ≡ queue
    → run s ≡ some s'
    → total i s' ≡ total i s
unfolding total run
total-run_at i s s' ready [] idle empty e = absurd (ground (arith, e, idle, empty))
total-run_at i s s' ready (r ∷ rest) idle queue e =
    let next : handle_request r (record s { ipc = rest }) ≡ s' = ground (arith, e, idle, queue) in
    ap (total i) (sym next) ∙ total-next i r rest s queue idle
total-run_at i s s' (for_room r) queue wait same e = ground (arith, wait, e)
total-run_at i s s' (for_start r) queue wait same e = ground (arith, wait, e)
total-run_at i s s' (for_hook r) queue wait same e = ground (arith, wait, e)

total-Step : (i : ℕ) (s s' : LogState) → Step s s' → total i s' ≡ total i s
unfolding total print notify notify_device_insertion notify_device_removal wait_for_start_request
total-Step i s s' (runs e) = total-run_at i s s' s.manager s.ipc refl refl e
total-Step i s s' (prints text e) = ground (arith, e)
total-Step i s s' (notifies e) = ground (arith, e)
total-Step i s s' (inserts id e) = ground (arith, e)
total-Step i s s' (removes id e) = ground (arith, e)
total-Step i s s' (starts e) = ground (arith, e)
total-Step i s s' (switches on) = refl

total-send :
    (i : ℕ) (r : Request) (s s' : LogState)
    → send r s ≡ some s'
    → total i s' ≡ total i s + one_if i r
unfolding total send
total-send i r s s' e = let more = count-append i s.ipc r in ground (arith, e, more)

-- Whatever the threads do and in whatever order: of the requests sent so far, each is in the queue of
-- the manager, in its hands, left waiting for something to tell, or answered, and in one of these
-- places only as many times as it was sent.
pub each_answered_once :
    (rs : List Request) (s : LogState)
    → Reachable rs s
    → (i : ℕ)
    → count i rs ≡ count i s.ipc + held i s.manager + waiting i s.response + answered i s.replies
unfolding total new_log
each_answered_once rs s r i = sent r
  where
    sent : {rs : List Request} {s : LogState} → Reachable rs s → count i rs ≡ total i s
    sent (made c m) = refl
    sent (sends {s = s} r before e) = omega (arith, total-send i r s _ e, sent before)
    sent (goes before step) = sent before ∙ sym (total-Step i _ _ step)
