-- ===== src/Sched/Clock.antt =====
-- How src/cpu/sched.c turns milliseconds into ticks.
use eyn_os.Base.{
  ℕ, ◌+◌, ◌*◌, ◌/◌, ◌%◌, ◌^◌, ◌<◌, ◌≡◌, ◌∙◌, ap, inl, inr, max, ◌==◌, if◌then◌else◌, arith,
  Bool-cases, update,
}
use eyn_os.Base.Loop.{for_range}
use eyn_os.Sched.{Sched, add32, mlfq_levels}

-- `g_tick_hz ? g_tick_hz : 100`.
abbrev pub rate : ℕ → ℕ
rate hz = if hz == 0 then 100 else hz

unfoldable pub ticks_from_ms : (hz ms : ℕ) → ℕ
ticks_from_ms hz ms =
    if ms == 0
    then 1
    else let ticks = rate hz / 1000 * ms % 2 ^ 32 in
      let rem = rate hz % 1000 * ms % 2 ^ 32 in
      let sum = add32 ticks (add32 rem 999 / 1000) in if sum == 0 then 1 else sum

-- `quantum_ms` are the levels' slices in milliseconds, and `boost_ms` is CONFIG_SCHED_MLFQ_BOOST_MS.
unfoldable pub recompute_ticks : (hz : ℕ) (quantum_ms : ℕ → ℕ) (boost_ms : ℕ) → Sched → Sched
unfolding ticks_from_ms
recompute_ticks hz quantum_ms boost_ms s =
    let boost = ticks_from_ms hz boost_ms in
    record s {
      quantum_ticks =
          for_range mlfq_levels 0 (λ i a. update a i (ticks_from_ms hz (quantum_ms i)))
            s.quantum_ticks;
      boost_interval_ticks = if boost == 0 then 1 else boost;
    }

thousands : (q r ms : ℕ) → (1000 * q + r) * ms ≡ 1000 * (q * ms) + r * ms
thousands q r ms = grind arith

rate_split : (hz ms : ℕ) → rate hz * ms ≡ 1000 * (rate hz / 1000 * ms) + rate hz % 1000 * ms
rate_split hz ms =
    let h = rate hz in
    let split : h ≡ 1000 * (h / 1000) + h % 1000 = omega arith in
    ap (λ (k : ℕ). k * ms) split ∙ thousands (h / 1000) (h % 1000) ms

-- As long as the product fits in 32 bits, the ticks are the milliseconds times the rate over 1000,
-- rounded up, and at least one.
pub ticks_from_ms-ceil :
    (hz ms : ℕ)
    → rate hz * ms + 999 < 2 ^ 32
    → ticks_from_ms hz ms ≡ max 1 ((rate hz * ms + 999) / 1000)
unfolding ticks_from_ms
ticks_from_ms-ceil hz ms small = elim (Bool-cases (ms == 0)) [
  | inl e ↦ let none : ms ≡ 0 = ground arith in rw (e, none) (omega arith)
  | inr e ↦ rw e (ground (arith, rate_split hz ms))
]
