-- ===== src/Sched.antt =====
-- The deferred-work scheduler of src/cpu/sched.c: a table of work items, one FIFO run queue for each
-- of 32 priorities linked through the table, a bitmap of the queues that hold something, and the
-- three MLFQ levels that choose the priority.
-- A link of -1 is `none`; a function pointer is a number, 0 for NULL.
pub mod Queues
pub mod Ops
pub mod Invariant
pub mod Timeslice
pub mod History
pub mod Clock
use eyn_os.Base.{
  ℕ, zero, suc, ◌+◌, ◌-◌, ◌*◌, ◌/◌, ◌%◌, ◌^◌, Bool, true, false, not, ◌&&◌, ◌||◌, Option, none,
  some, bit_and, bit_or, ltb, leb, ◌==◌, if◌then◌else◌, update,
}
use eyn_os.Base.Bits.{test_bit, complement}

abbrev pub work_max : ℕ
work_max = 64

abbrev pub work_prios : ℕ
work_prios = 32

abbrev pub cpu_any : ℕ
cpu_any = 0xFFFF_FFFF

abbrev pub level_low : ℕ
level_low = 0

abbrev pub level_medium : ℕ
level_medium = 1

abbrev pub level_high : ℕ
level_high = 2

abbrev pub mlfq_levels : ℕ
mlfq_levels = 3

-- CONFIG_SCHED_MLFQ as the build sets it.
abbrev pub mlfq_is_enabled : Bool
mlfq_is_enabled = true

-- `sched_work_t`.
pub record Work : Type 0 where
  pub id : ℕ
  pub priority : ℕ
  pub next : Option ℕ
  pub in_queue : Bool
  pub mlfq_level : ℕ
  pub run : ℕ
  pub userdata : ℕ
  pub affinity_mask : ℕ
  pub budget_ticks : ℕ
  pub budget_left : ℕ
  pub cache_hint : ℕ
  pub mlfq_slice_left : ℕ
  pub mlfq_last_boost_tick : ℕ

-- `sched_queue_t`.
pub record RunQueue : Type 0 where
  pub head : Option ℕ
  pub tail : Option ℕ

-- The file's static variables that the work queue reads and writes.
pub record Sched : Type 0 where
  pub work : ℕ → Work
  pub runq : ℕ → RunQueue
  pub work_inflight : Bool
  pub ready_bitmap : ℕ
  pub quantum_ticks : ℕ → ℕ
  pub boost_interval_ticks : ℕ
  pub last_global_boost_tick : ℕ
  pub work_runs : ℕ
  pub work_demotions : ℕ
  pub work_boosts : ℕ
  pub ticks : ℕ

abbrev pub empty_queue : RunQueue
empty_queue = record { head = none; tail = none }

abbrev pub add32 : ℕ → ℕ → ℕ
add32 a b = (a + b) % 2 ^ 32

abbrev pub sub32 : ℕ → ℕ → ℕ
sub32 a b = (a + 2 ^ 32 - b) % 2 ^ 32

unfoldable pub level_quantum_ticks : Sched → ℕ → ℕ
level_quantum_ticks s level = s.quantum_ticks (if leb mlfq_levels level then level_high else level)

unfoldable pub priority_to_level : ℕ → ℕ
priority_to_level priority =
    if leb (work_prios * 2 / 3) priority
    then level_high
    else if leb (work_prios / 3) priority
    then level_medium
    else level_low

unfoldable pub level_to_prio : ℕ → ℕ
level_to_prio level =
    let l = if leb mlfq_levels level then level_high else level in
    if l == level_high then work_prios - 1 else if l == level_medium then work_prios / 2 else 0

unfoldable pub prio_index : ℕ → ℕ
prio_index priority = if leb work_prios priority then work_prios - 1 else priority

-- The highest set bit below `n`, as the loop of `sched_bsr32` looks for it.
unfoldable pub bsr_below : ℕ → ℕ → Option ℕ
bsr_below zero v = none
bsr_below (suc n) v = if test_bit v n then some n else bsr_below n v

unfoldable pub bsr32 : ℕ → Option ℕ
unfolding bsr_below
bsr32 v = if v == 0 then none else bsr_below 32 v

-- The priority that `sched_work_enqueue` uses for an item.
unfoldable pub enqueue_prio : Work → ℕ
unfolding level_to_prio prio_index
enqueue_prio w = if mlfq_is_enabled then level_to_prio w.mlfq_level else prio_index w.priority

-- `g_work[tail].next = idx`, where there is a tail.
abbrev pub link_tail : Option ℕ → ℕ → (ℕ → Work) → ℕ → Work
link_tail none i work = work
link_tail (some t) i work = update work t (record (work t) { next = some i })

abbrev pub extend_queue : Option ℕ → ℕ → RunQueue → RunQueue
extend_queue none i q = record { head = some i; tail = some i }
extend_queue (some t) i q = record q { tail = some i }

abbrev pub mark_ready : Option ℕ → ℕ → ℕ → ℕ
mark_ready none p ready = bit_or ready (2 ^ p)
mark_ready (some h) p ready = ready

-- The body of `sched_work_enqueue` behind its guards.
unfoldable pub append_work : ℕ → ℕ → Sched → Sched
append_work p i s =
    let q = s.runq p in
    let cleared = update s.work i (record (s.work i) { next = none }) in
    let linked = link_tail q.tail i cleared in
    record s {
      work = update linked i (record (linked i) { in_queue = true });
      runq = update s.runq p (extend_queue q.tail i q);
      ready_bitmap = mark_ready q.head p s.ready_bitmap;
    }

unfoldable pub enqueue : ℕ → Sched → Sched
enqueue i s =
    if leb work_max i
    then s
    else if (s.work i).in_queue
    then s
    else append_work (enqueue_prio (s.work i)) i s

-- `~(1u << prio)` taken out of a word.
abbrev pub clear_bit : ℕ → ℕ → ℕ
clear_bit m p = bit_and m (complement 32 (2 ^ p))

abbrev pub advance_queue : Option ℕ → RunQueue → RunQueue
advance_queue none q = empty_queue
advance_queue (some n) q = record q { head = some n }

abbrev pub unmark_ready : Option ℕ → ℕ → ℕ → ℕ
unmark_ready none p ready = clear_bit ready p
unmark_ready (some n) p ready = ready

-- The body of `sched_work_dequeue_prio` for a queue with head `i`.
unfoldable pub remove_head : ℕ → ℕ → Sched → Sched
remove_head p i s = record s {
  work = update s.work i (record (s.work i) { next = none; in_queue = false });
  runq = update s.runq p (advance_queue (s.work i).next (s.runq p));
  ready_bitmap = unmark_ready (s.work i).next p s.ready_bitmap;
}

unfoldable pub dequeue_prio : ℕ → Sched → Option ℕ × Sched
dequeue_prio p s =
    if leb work_prios p
    then (none, s)
    else elim (s.runq p).head [ none ↦ (none, s) | some i ↦ (some i, remove_head p i s) ]
