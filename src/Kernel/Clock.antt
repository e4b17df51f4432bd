-- ===== src/Kernel/Clock.antt =====
-- ios/IOS/System.cpp, the clock: the time of day from a 32-bit timer of the hardware, which a thread
-- reads now and then so that it does not overflow unseen.
use saoirse.Prelude.{
  ℕ, ◌+◌, ◌-◌, ◌/◌, ◌%◌, ◌<◌, ◌≤◌, ◌^◌, ◌≡◌, subst, sym, refl, Bool, true, List, [], ◌∷◌, ltb, ◌==◌,
  if◌then◌else◌, u64, arith,
}

-- `s_timerCtx`, `s_timerIndex`, `s_baseEpoch` and `s_timerStarted`
pub record Clock : Type 0 where
  pub timers : ℕ → ℕ
  pub ticks : ℕ → ℕ
  pub timer_index : ℕ
  pub base_epoch : ℕ
  pub timer_started : Bool

-- `diff_ticks`, in `u64`
unfoldable pub diff_ticks : ℕ → ℕ → ℕ
diff_ticks t0 t1 = if ltb t1 t0 then u64 (2 ^ 64 - 1 - t0 + t1) else t1 - t0

-- An array with one entry written.
abbrev put : (ℕ → ℕ) → ℕ → ℕ → ℕ → ℕ
put f i v j = if j == i then v else f j

-- `i ^ 1`
abbrev pub other : ℕ → ℕ
other i = if i % 2 == 0 then i + 1 else i - 1

-- A round of `TimerThreadEntry` that reads the timer.
unfoldable pub timer_round : ℕ → Clock → Clock
timer_round reading c =
    let next = other c.timer_index in
    let prev_timer = c.timers c.timer_index in
    record c {
      ticks = put c.ticks next (u64 (c.ticks c.timer_index + diff_ticks prev_timer reading));
      timers = put c.timers next reading;
      timer_index = next;
    }

-- `System::SetTime`; the thread is started where it has not been.
unfoldable pub set_time : ℕ → ℕ → Clock → Clock
set_time hw_timer epoch c = record c {
  timers = put c.timers c.timer_index hw_timer;
  ticks = put c.ticks c.timer_index 0;
  base_epoch = epoch;
  timer_started = true;
}

-- timer ticks in a second
abbrev pub ticks_per_second : ℕ
ticks_per_second = 1898614

-- `System::GetTime`, with what the timer reads
unfoldable pub get_time : ℕ → Clock → ℕ
get_time reading c =
    let i = c.timer_index in
    let now = u64 (c.ticks i + diff_ticks (c.timers i) reading) in
    u64 (c.base_epoch + now / ticks_per_second)

-- Rounds of the thread at readings, the first one first.
abbrev pub rounds : List ℕ → Clock → Clock
rounds [] c = c
rounds (t ∷ ts) c = rounds ts (timer_round t c)

-- Readings that never go back, from one on, and end at or before another.
abbrev pub Ascends : ℕ → List ℕ → ℕ → Type 0
Ascends from [] to = from ≤ to
Ascends from (t ∷ ts) to = (from ≤ t) × Ascends t ts to

from_le_to : (from : ℕ) (ts : List ℕ) (to : ℕ) → Ascends from ts to → from ≤ to
from_le_to from [] to h = h
from_le_to from (t ∷ ts) to (h, more) = omega (arith, h, from_le_to t ts to more)

-- What the clock counts from: a reading and an epoch.
record Counts (start epoch : ℕ) (c : Clock) : Type 0 where
  since : c.ticks c.timer_index + start ≡ c.timers c.timer_index
  based : c.base_epoch ≡ epoch

timer_round-Counts :
    (start epoch t : ℕ) (c : Clock)
    → Counts start epoch c
    → c.timers c.timer_index ≤ t
    → t < 2 ^ 32
    → Counts start epoch (timer_round t c)
      × ((timer_round t c).timers (timer_round t c).timer_index ≡ t)
unfolding timer_round diff_ticks
timer_round-Counts start epoch t c counts le small =
    (record { since = ground (arith, counts.since, le, small); based = counts.based }, ground arith)

get_time-Counts :
    (start epoch now : ℕ) (c : Clock)
    → Counts start epoch c
    → c.timers c.timer_index ≤ now
    → now < 2 ^ 32
    → epoch < 2 ^ 63
    → get_time now c ≡ epoch + (now - start) / ticks_per_second
unfolding get_time diff_ticks
get_time-Counts start epoch now c counts le small early =
    ground (arith, counts.since, counts.based, le, small, early)

rounds_count :
    (start epoch now : ℕ) (ts : List ℕ) (c : Clock)
    → Counts start epoch c
    → Ascends (c.timers c.timer_index) ts now
    → now < 2 ^ 32
    → epoch < 2 ^ 63
    → get_time now (rounds ts c) ≡ epoch + (now - start) / ticks_per_second
rounds_count start epoch now [] c counts ascends small early =
    get_time-Counts start epoch now c counts ascends small early
rounds_count start epoch now (t ∷ ts) c counts (le, more) small early =
    let before = from_le_to t ts now more in
    let (later, at) = timer_round-Counts start epoch t c counts le (omega (arith, before, small)) in
    rounds_count start epoch now ts (timer_round t c) later
      (subst (λ x. Ascends x ts now) (sym at) more) small early

-- Set at a reading of the timer to an epoch below 2^63, and read later before the timer has wrapped, the clock gives the
-- epoch it was set to and the whole seconds of the ticks in between, whatever readings the timer
-- thread has taken meanwhile, in the order of the timer.
pub get_time_exact :
    (start epoch now : ℕ) (ts : List ℕ) (c : Clock)
    → Ascends start ts now
    → now < 2 ^ 32
    → epoch < 2 ^ 63
    → get_time now (rounds ts (set_time start epoch c)) ≡ epoch + (now - start) / ticks_per_second
unfolding set_time
get_time_exact start epoch now ts c ascends small early =
    let set = set_time start epoch c in
    let at : start ≡ set.timers set.timer_index = ground arith in
    let counts : Counts start epoch set = record { since = ground arith; based = refl } in
    rounds_count start epoch now ts set counts (subst (λ x. Ascends x ts now) at ascends) small
      early

-- Set at a reading to an epoch below 2^63, with a round of the thread at a later one, and read when the timer has wrapped
-- and passed the first reading again, the clock gives one tick less than the difference of the two
-- readings: the 2^32 ticks of the wrap are lost.
pub wrapped_clock_lags :
    (start epoch t now : ℕ) (c : Clock)
    → start < now
    → now < t
    → t < 2 ^ 32
    → epoch < 2 ^ 63
    → get_time now (timer_round t (set_time start epoch c))
      ≡ epoch + (now - start - 1) / ticks_per_second
unfolding get_time timer_round set_time diff_ticks
wrapped_clock_lags start epoch t now c h1 h2 h3 h4 = ground (arith, h1, h2, h3, h4)
