-- ===== src/Sched/Timeslice/Progress.antt =====
-- The loop of `sched_work_on_timeslice_end` in src/cpu/sched.c ends when every registered item may
-- run on this processor.
use eyn_os.Base.{
  ℕ, zero, suc, ◌+◌, ◌<◌, ◌≡◌, ◌≢◌, ◌∙◌, refl, Bool, true, false, none, some, inl, inr, arith,
  Bool-cases, Option-cases,
}
use eyn_os.Sched.{Sched, work_max, work_prios, bsr32, clear_bit, remove_head}
use eyn_os.Sched.Queues.Dequeue.{dequeue_prio-none, dequeue_prio-some}
use eyn_os.Sched.Ops.{boost_if_due}
use eyn_os.Sched.Invariant.{Sound}
use eyn_os.Sched.Invariant.Steps.{Sound-frame}
use eyn_os.Sched.Invariant.Boost.{boost_if_due-Sound}
use eyn_os.Sched.Timeslice.{
  is_idle, done, again, round, round_item, execute, run_loop, on_timeslice_end,
}
use eyn_os.Sched.Timeslice.Removal.{
  queued_count, queued_count-le, removed_less, removed-Sound, removed-AllLocal, removed_local,
  removed_registered, drop_bit, drop_bit-Sound,
}
use eyn_os.Sched.Timeslice.Items.{AllLocal, AllLocal-same, boost_if_due-SameItems}
use eyn_os.Sched.Timeslice.Bitmap.{bsr32-some, bit_count, bit_count-clear, bit_count-le}

-- What the loop has left to do: each round takes an item out of the queues or a bit out of `ready`.
pub left : ℕ → Sched → ℕ
left ready s = queued_count work_max s.work + bit_count work_prios ready

-- The fuel that always suffices: one round for each item, one for each bit, and the last.
abbrev pub timeslice_fuel : ℕ
timeslice_fuel = 97

-- The state behind the first assignment of `sched_work_on_timeslice_end`.
abbrev pub enter : Sched → Sched
enter s = record s { work_inflight = true }

pub enter-Sound : (s : Sched) → Sound s → Sound (enter s)
enter-Sound s v =
    Sound-frame s (enter s)
      (record { next = λ j. refl; in_queue = λ j. refl; runq = refl; bitmap = refl }) (λ j e. e) v

module _ (call : ℕ → ℕ → Sched → Sched) where
  -- One round at a queue that is empty, and one at a queue with a head.
  round_empty :
      (ready p : ℕ) (s : Sched)
      → p < work_prios
      → bsr32 ready ≡ some p
      → (s.runq p).head ≡ none
      → round call ready s ≡ again (clear_bit ready p) (drop_bit p s)
  unfolding round
  round_empty ready p s hp b h = rw (b, dequeue_prio-none p s hp h)

  pub round_head :
      (ready p i : ℕ) (s : Sched)
      → p < work_prios
      → bsr32 ready ≡ some p
      → (s.runq p).head ≡ some i
      → round call ready s ≡ round_item call ready i (remove_head p i s)
  unfolding round
  round_head ready p i s hp b h = rw (b, dequeue_prio-some p s hp i h)

  round-none : (ready : ℕ) (s : Sched) → bsr32 ready ≡ none → round call ready s ≡ done false s
  unfolding round
  round-none ready s b = rw b

  pub run_loop-done :
      (f ready : ℕ) (s : Sched) (ran : Bool) (t : Sched)
      → round call ready s ≡ done ran t
      → run_loop call (suc f) ready s ≡ some (ran, t)
  unfolding run_loop
  run_loop-done f ready s ran t e = rw e

  pub run_loop-again :
      (f ready : ℕ) (s : Sched) (r : ℕ) (t : Sched)
      → round call ready s ≡ again r t
      → run_loop call (suc f) ready s ≡ run_loop call f r t
  unfolding run_loop
  run_loop-again f ready s r t e = rw e

-- What holds of the state when the loop is left, whether it ran an item or not.
pub record Leaves (call : ℕ → ℕ → Sched → Sched) (P : Sched → Type 0) : Type 0 where
  pub stops : (s : Sched) → Sound s → AllLocal s → P s
  pub runs :
      (i : ℕ) (s : Sched)
      → i < work_max
      → (s.work i).id ≢ 0
      → Sound s
      → AllLocal s
      → P (execute call i s)

module _ (call : ℕ → ℕ → Sched → Sched) (P : Sched → Type 0) (k : Leaves call P) where
  pub run_loop-total :
      (f ready : ℕ) (s : Sched)
      → Sound s
      → AllLocal s
      → left ready s < f
      → (r : Bool × Sched) × (run_loop call f ready s ≡ some r) × P r.1
  unfolding left
  run_loop-total zero ready s v a m = absurd (omega arith)
  run_loop-total (suc f) ready s v a m = elim (Option-cases (bsr32 ready)) [
    | inl b ↦ (
      (false, s),
      run_loop-done call f ready s false s (round-none call ready s b),
      k.stops s v a,
    )
    | inr (p, b) ↦
        let bit = bsr32-some ready p b in
        elim (Option-cases (s.runq p).head) [
          | inl h ↦
              let (r, e, q) =
                run_loop-total f (clear_bit ready p) (drop_bit p s) (drop_bit-Sound p s bit.0 h v) a
                  (omega (arith, bit_count-clear work_prios ready p (omega arith) bit.0 bit.1)) in
              (
                r,
                run_loop-again call f ready s (clear_bit ready p) (drop_bit p s)
                      (round_empty call ready p s bit.0 b h)
                    ∙ e,
                q,
              )
          | inr (i, h) ↦
              let t = remove_head p i s in
              let vt = removed-Sound s v p i bit.0 h in
              let at = removed-AllLocal s v p i bit.0 h a in
              elim (Bool-cases (is_idle (t.work i))) [
                | inl idle ↦
                    let (r, e, q) =
                      run_loop-total f ready t vt at
                        (omega (arith, removed_less s v p i bit.0 h)) in
                    (
                      r,
                      run_loop-again call f ready s ready t
                            (round_head call ready p i s bit.0 b h ∙ rw idle)
                          ∙ e,
                      q,
                    )
                | inr busy ↦ (
                  (true, execute call i t),
                  run_loop-done call f ready s true (execute call i t) (
                      round_head call ready p i s bit.0 b h
                      ∙ rw (busy, removed_local s v p i bit.0 h a)),
                  k.runs i t (removed_registered s v p i bit.0 h).0
                      (removed_registered s v p i bit.0 h).1 vt at,
                )
              ]
        ]
  ]

  -- What holds when the loop is left still holds with the guard against nesting taken down.
  pub timeslice-Leaves :
      (s : Sched)
      → Sound s
      → AllLocal s
      → P s
      → ((t : Sched) → P t → P (record t { work_inflight = false }))
      → (r : Bool × Sched) × (on_timeslice_end call timeslice_fuel s ≡ some r) × P r.1
  unfolding on_timeslice_end left
  timeslice-Leaves s v a here keep = elim (Bool-cases s.work_inflight) [
    | inl e ↦ ((false, s), rw (e, on_timeslice_end), here)
    | inr e ↦
        let t = boost_if_due (enter s) in
        let (r, run, q) =
          run_loop-total timeslice_fuel t.ready_bitmap t
            (boost_if_due-Sound (enter s) (enter-Sound s v))
            (AllLocal-same (enter s) t (boost_if_due-SameItems (enter s)) a)
            (omega
              (arith, queued_count-le work_max t.work, bit_count-le work_prios t.ready_bitmap)) in
        (
          (r.0, record (r.1) { work_inflight = false }),
          rw (e, on_timeslice_end) (rw run),
          keep r.1 q,
        )
  ]

-- With sound queues, and no registered item bound to another processor, the function returns.
pub on_timeslice_end-total :
    (call : ℕ → ℕ → Sched → Sched) (s : Sched)
    → Sound s
    → AllLocal s
    → (r : Bool × Sched) × (on_timeslice_end call timeslice_fuel s ≡ some r)
on_timeslice_end-total call s v a =
    let (r, e, _) =
      timeslice-Leaves call (λ t. Unit {0})
        (record { stops = λ t v' a'. tt; runs = λ i t hi d v' a'. tt }) s v a tt (λ t q. tt) in
    (r, e)
