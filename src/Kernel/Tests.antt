-- ===== src/Kernel/Tests.antt =====
-- Copies of a few bytes.
use saoirse.Prelude.{◌+◌, ◌-◌, ◌/◌, ◌≡◌, false, [], ◌∷◌, arith}
use saoirse.Prelude.Buffers.{Buffer, copy}
use saoirse.Kernel.{unaligned_memcpy, round_up}
use saoirse.Kernel.Clock.{
  Clock, timer_round, set_time, get_time, rounds, ticks_per_second, get_time_exact,
  wrapped_clock_lags,
}
use saoirse.Kernel.Copies.{unaligned_memcpy_exact, short_copy_overruns}

abbrev source : Buffer
source x = x + 10

abbrev target : Buffer
target x = 0

unaligned_memcpy_exact_example : unaligned_memcpy 5 source 9 target 12 ≡ copy target 5 source 0 9 12
unfolding round_up
unaligned_memcpy_exact_example =
    unaligned_memcpy_exact 5 9 12 source target (omega arith) (omega arith)

short_copy_overruns_example : unaligned_memcpy 5 source 1 target 100 ≡ source (100 - 5)
short_copy_overruns_example =
    short_copy_overruns 5 1 100 source target (λ e. absurd (omega (arith, e))) (omega arith)
      (omega arith) (omega arith)

abbrev stopped : Clock
stopped = record {
  timers = λ i. 0;
  ticks = λ i. 0;
  timer_index = 0;
  base_epoch = 0;
  timer_started = false;
}

get_time_exact_example :
    get_time 12000000 (rounds (3000000 ∷ 9000000 ∷ []) (set_time 1000000 700 stopped))
    ≡ 700 + (12000000 - 1000000) / ticks_per_second
get_time_exact_example =
    get_time_exact 1000000 700 12000000 (3000000 ∷ 9000000 ∷ []) stopped
      (omega arith, (omega arith, omega arith)) (omega arith) (omega arith)

wrapped_clock_lags_example :
    get_time 5000000 (timer_round 4000000000 (set_time 1000000 700 stopped))
    ≡ 700 + (5000000 - 1000000 - 1) / ticks_per_second
wrapped_clock_lags_example =
    wrapped_clock_lags 1000000 700 4000000000 5000000 stopped (omega arith) (omega arith)
      (omega arith) (omega arith)
