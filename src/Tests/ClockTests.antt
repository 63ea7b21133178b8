-- ===== src/Tests/ClockTests.antt =====
-- Slices of src/cpu/sched.c in ticks.
use eyn_os.Base.{◌≡◌, refl}
use eyn_os.Sched.Clock.{ticks_from_ms}

-- 25 ms at 50 Hz are two ticks.
ticks_of_25_ms : ticks_from_ms 50 25 ≡ 2
unfolding ticks_from_ms
ticks_of_25_ms = refl
