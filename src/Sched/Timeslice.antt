-- ===== src/Sched/Timeslice.antt =====
-- `sched_work_on_timeslice_end` of src/cpu/sched.c. The work function behind a `run` pointer is the
-- parameter `call`: the pointer, the index of the item, and what the call does to the state.
pub mod Bitmap
pub mod Items
pub mod Removal
pub mod Progress
pub mod Choice
pub mod Spin
use eyn_os.Base.{
  ℕ, zero, suc, ◌-◌, Bool, true, false, not, ◌||◌, Option, none, some, ltb, ◌==◌, if◌then◌else◌,
  update,
}
use eyn_os.Base.Bits.{test_bit}
use eyn_os.Sched.{Sched, Work, bsr32, clear_bit, enqueue, dequeue_prio, add32}
use eyn_os.Sched.Ops.{account_run, boost_if_due}

abbrev pub spend_budget : Work → Work
spend_budget w = if ltb 0 w.budget_left then record w { budget_left = w.budget_left - 1 } else w

-- `!w->run || w->budget_left == 0`.
abbrev pub is_idle : Work → Bool
is_idle w = (w.run == 0) || (w.budget_left == 0)

-- `(w->affinity_mask & 1u) == 0`.
abbrev pub is_foreign : Work → Bool
is_foreign w = not (test_bit w.affinity_mask 0)

-- How a round of the loop ends: the loop is left, with whether an item ran, or goes on.
pub data Round : Type 0 where
  done : Bool → Sched → Round
  again : ℕ → Sched → Round

abbrev pub after_round : Round → (ℕ → Sched → Option (Bool × Sched)) → Option (Bool × Sched)
after_round (done ran s) next = some (ran, s)
after_round (again ready s) next = next ready s

abbrev pub leave : Option (Bool × Sched) → Option (Bool × Sched)
leave none = none
leave (some (ran, s)) = some (ran, record s { work_inflight = false })

module _ (call : ℕ → ℕ → Sched → Sched) where
  -- The part of the loop body that runs item `i`.
  unfoldable pub execute : ℕ → Sched → Sched
  execute i s =
      let called = call (s.work i).run i s in
      let spent = record called { work = update called.work i (spend_budget (called.work i)) } in
      let accounted = account_run i spent in
      let queued =
        if ltb 0 (accounted.work i).budget_left then enqueue i accounted else accounted in
      record queued { work_runs = add32 queued.work_runs 1 }

  -- The rest of a round, once item `i` is out of its queue.
  abbrev pub round_item : ℕ → ℕ → Sched → Round
  round_item ready i s =
      if is_idle (s.work i)
      then again ready s
      else if is_foreign (s.work i)
      then again ready (enqueue i s)
      else done true (execute i s)

  -- An empty queue behind a set bit: the bit is cleared in both words.
  abbrev pub round_taken : ℕ → ℕ → Option ℕ → Sched → Round
  round_taken ready p none s =
      again (clear_bit ready p) (record s { ready_bitmap = clear_bit s.ready_bitmap p })
  round_taken ready p (some i) s = round_item ready i s

  abbrev pub round_bit : ℕ → Option ℕ → Sched → Round
  round_bit ready none s = done false s
  round_bit ready (some p) s = let (taken, s1) = dequeue_prio p s in round_taken ready p taken s1

  -- One round of the loop over the local copy `ready` of the bitmap.
  unfoldable pub round : ℕ → Sched → Round
  round ready s = round_bit ready (bsr32 ready) s

  unfoldable pub run_loop : ℕ → ℕ → Sched → Option (Bool × Sched)
  run_loop zero ready s = none
  run_loop (suc f) ready s = after_round (round ready s) (run_loop f)

  -- The whole function: whether an item ran, and the state. `none`: the fuel ran out.
  unfoldable pub on_timeslice_end : ℕ → Sched → Option (Bool × Sched)
  unfolding run_loop
  on_timeslice_end fuel s =
      if s.work_inflight
      then some (false, s)
      else let s1 = boost_if_due (record s { work_inflight = true }) in
        leave (run_loop fuel s1.ready_bitmap s1)
