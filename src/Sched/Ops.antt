-- ===== src/Sched/Ops.antt =====
-- The operations of src/cpu/sched.c on work items: registration, readiness, budgets, the MLFQ boost
-- and accounting. A work item is named by its index in `g_work`; an id is the index plus one.
use eyn_os.Base.{
  ℕ, ◌+◌, ◌-◌, Bool, true, false, not, ◌&&◌, ◌||◌, Option, none, some, ltb, leb, ◌==◌,
  if◌then◌else◌, update,
}
use eyn_os.Base.Loop.{for_range, find_from}
use eyn_os.Sched.{
  Sched, Work, work_max, work_prios, cpu_any, level_low, level_high, mlfq_is_enabled, empty_queue,
  level_quantum_ticks, priority_to_level, enqueue, add32, sub32,
}

unfoldable pub work_get : Sched → ℕ → Option ℕ
work_get s id =
    if id == 0
    then none
    else if leb work_max (id - 1)
    then none
    else if (s.work (id - 1)).id == id
    then some (id - 1)
    else none

-- One item of the table as `sched_work_init` leaves it.
abbrev pub blank_work : Sched → Work
blank_work s = record {
  id = 0;
  priority = 0;
  next = none;
  in_queue = false;
  mlfq_level = level_high;
  run = 0;
  userdata = 0;
  affinity_mask = cpu_any;
  budget_ticks = 0;
  budget_left = 0;
  cache_hint = 0;
  mlfq_slice_left = level_quantum_ticks s level_high;
  mlfq_last_boost_tick = 0;
}

abbrev pub clear_work : ℕ → Sched → Sched
clear_work i s = record s { work = update s.work i (blank_work s) }

abbrev pub clear_queue : ℕ → Sched → Sched
clear_queue p s = record s { runq = update s.runq p empty_queue }

unfoldable pub work_init : Sched → Sched
work_init s =
    let s1 = for_range work_max 0 clear_work s in
    let s2 = for_range work_prios 0 clear_queue s1 in
    record s2 { ready_bitmap = 0; work_inflight = false }

-- The arguments of `sched_work_register`.
pub record Request : Type 0 where
  pub run : ℕ
  pub userdata : ℕ
  pub priority : ℕ
  pub affinity_mask : ℕ
  pub budget_ticks : ℕ
  pub cache_hint : ℕ

abbrev pub new_work : Request → ℕ → Sched → Work
new_work r i s = record {
  id = i + 1;
  priority = r.priority;
  next = none;
  in_queue = false;
  mlfq_level = priority_to_level r.priority;
  run = r.run;
  userdata = r.userdata;
  affinity_mask = if r.affinity_mask == 0 then cpu_any else r.affinity_mask;
  budget_ticks = r.budget_ticks;
  budget_left = r.budget_ticks;
  cache_hint = r.cache_hint;
  mlfq_slice_left = level_quantum_ticks s (priority_to_level r.priority);
  mlfq_last_boost_tick = s.ticks;
}

unfoldable pub fill_slot : Request → ℕ → Sched → Sched
fill_slot r i s =
    let filled = record s { work = update s.work i (new_work r i s) } in
    if r.budget_ticks == 0 then filled else enqueue i filled

-- The new id, or none for -1.
unfoldable pub register : Request → Sched → Option ℕ × Sched
register r s =
    if r.run == 0 then (none, s) else elim (find_from work_max 0 (λ i. (s.work i).id == 0)) [
      | none ↦ (none, s)
      | some i ↦ (some (i + 1), fill_slot r i s)
    ]

abbrev pub refill_budget : Work → Work
refill_budget w =
    if (w.budget_left == 0) && not (w.budget_ticks == 0)
    then record w { budget_left = w.budget_ticks }
    else w

abbrev pub refill_slice : Sched → Work → Work
refill_slice s w =
    if w.mlfq_slice_left == 0
    then record w { mlfq_slice_left = level_quantum_ticks s w.mlfq_level }
    else w

-- The result is true for 0 and false for -1.
unfoldable pub set_ready : ℕ → Sched → Bool × Sched
set_ready id s = elim (work_get s id) [
  | none ↦ (false, s)
  | some i ↦ (
    true,
    enqueue i (record s { work = update s.work i (refill_slice s (refill_budget (s.work i))) }),
  )
]

unfoldable pub unready : ℕ → Sched → Bool × Sched
unready id s = elim (work_get s id) [
  | none ↦ (false, s)
  | some i ↦ (true, record s { work = update s.work i (record (s.work i) { budget_left = 0 }) })
]

abbrev pub limit_budget : ℕ → Work → Work
limit_budget b w = record w {
  budget_ticks = b;
  budget_left = if ltb b w.budget_left then b else w.budget_left;
}

unfoldable pub update_budget : ℕ → ℕ → Sched → Bool × Sched
update_budget id b s = elim (work_get s id) [
  | none ↦ (false, s)
  | some i ↦ (true, record s { work = update s.work i (limit_budget b (s.work i)) })
]

-- One round of the second loop of `sched_work_requeue_all`.
unfoldable pub requeue : ℕ → Sched → Sched
requeue i s =
    if ((s.work i).id == 0) || not (s.work i).in_queue
    then s
    else enqueue i
        (record s { work = update s.work i (record (s.work i) { in_queue = false; next = none }) })

unfoldable pub requeue_all : Sched → Sched
requeue_all s =
    let s1 = for_range work_prios 0 clear_queue s in
    for_range work_max 0 requeue (record s1 { ready_bitmap = 0 })

-- One round of the loop of `sched_mlfq_boost_if_due`.
unfoldable pub boost : ℕ → Sched → Sched
boost i s = if (s.work i).id == 0 then s else record s {
  work = update s.work i (record (s.work i) {
    mlfq_level = level_high;
    mlfq_slice_left = level_quantum_ticks s level_high;
    mlfq_last_boost_tick = s.ticks;
  });
}

unfoldable pub boost_if_due : Sched → Sched
boost_if_due s =
    if not mlfq_is_enabled
    then s
    else if ltb (sub32 s.ticks s.last_global_boost_tick) s.boost_interval_ticks
    then s
    else let s1 = requeue_all (for_range work_max 0 boost s) in
      record s1 { last_global_boost_tick = s.ticks; work_boosts = add32 s1.work_boosts 1 }

-- `mlfq_slice_left--` where it is positive.
abbrev pub spend_slice : Work → Work
spend_slice w =
    if ltb 0 w.mlfq_slice_left then record w { mlfq_slice_left = w.mlfq_slice_left - 1 } else w

abbrev pub demote : Work → Work
demote w = if ltb level_low w.mlfq_level then record w { mlfq_level = w.mlfq_level - 1 } else w

abbrev pub end_slice : Sched → Work → Work
end_slice s w =
    if w.mlfq_slice_left == 0
    then (let d = demote w in record d { mlfq_slice_left = level_quantum_ticks s d.mlfq_level })
    else w

unfoldable pub account_run : ℕ → Sched → Sched
account_run i s =
    if not mlfq_is_enabled
    then s
    else let w = spend_slice (s.work i) in
      let demoted = (w.mlfq_slice_left == 0) && ltb level_low w.mlfq_level in
      record s {
        work = update s.work i (record (end_slice s w) { mlfq_last_boost_tick = s.ticks });
        work_demotions = if demoted then add32 s.work_demotions 1 else s.work_demotions;
      }
