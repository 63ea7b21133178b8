-- ===== src/Tests/SchedTests.antt =====
-- The scheduler of src/cpu/sched.c with one item in the queue of the highest priority.
use eyn_os.Base.{
  ℕ, ◌≡◌, ◌<◌, refl, sym, subst, Bool, true, false, none, some, inl, inr, Bool-cases, List, [], ◌∷◌,
  contains, arith, ◌==◌, if◌then◌else◌,
}
use eyn_os.Base.Bits.{test_bit, test_bit-pow}
use eyn_os.Sched.{
  Sched, Work, work_max, empty_queue, enqueue, enqueue_prio, dequeue_prio, remove_head,
  level_to_prio,
}
use eyn_os.Sched.Queues.{Linked, Complete, Placed}
use eyn_os.Sched.Queues.Enqueue.{enqueued, enqueue_refines}
use eyn_os.Sched.Queues.Dequeue.{dequeued, dequeue_prio_refines}
use eyn_os.Sched.Queues.Frame.{Linked-frame}
use eyn_os.Sched.Ops.{Request, boost_if_due, work_init}
use eyn_os.Sched.Invariant.{Sound}
use eyn_os.Sched.Invariant.Boost.{SameNames, boost_if_due-Placed}
use eyn_os.Sched.Timeslice.{execute, on_timeslice_end}
use eyn_os.Sched.Timeslice.Progress.{enter, timeslice_fuel, on_timeslice_end-total}
use eyn_os.Sched.Timeslice.Choice.{IsHighest, on_timeslice_end-runs_first}
use eyn_os.Sched.Timeslice.Spin.{IsStuck, on_timeslice_end-spins}
use eyn_os.Sched.History.{registers, ends_slice, Good, Lawful, run_calls}
use eyn_os.Sched.History.Keeps.{run_calls-init}

-- An item bound to the processors of `mask`.
abbrev item : ℕ → Work
item mask = record {
  id = 4;
  priority = 31;
  next = none;
  in_queue = true;
  mlfq_level = 2;
  run = 7;
  userdata = 0;
  affinity_mask = mask;
  budget_ticks = 5;
  budget_left = 5;
  cache_hint = 0;
  mlfq_slice_left = 10;
  mlfq_last_boost_tick = 0;
}

abbrev no_item : Work
no_item = record {
  id = 0;
  priority = 0;
  next = none;
  in_queue = false;
  mlfq_level = 2;
  run = 0;
  userdata = 0;
  affinity_mask = 0xFFFF_FFFF;
  budget_ticks = 0;
  budget_left = 0;
  cache_hint = 0;
  mlfq_slice_left = 10;
  mlfq_last_boost_tick = 0;
}

-- Item 3 is alone in queue 31.
abbrev one_item : ℕ → Sched
one_item mask = record {
  work = λ i. if i == 3 then item mask else no_item;
  runq = λ p. if p == 31 then record { head = some 3; tail = some 3 } else empty_queue;
  work_inflight = false;
  ready_bitmap = 0x8000_0000;
  quantum_ticks = λ l. 10;
  boost_interval_ticks = 1000;
  last_global_boost_tick = 0;
  work_runs = 0;
  work_demotions = 0;
  work_boosts = 0;
  ticks = 0;
}

abbrev one_list : ℕ → List ℕ
one_list p = if p == 31 then 3 ∷ [] else []

one_item-Linked : (mask : ℕ) → Linked (one_item mask) one_list
one_item-Linked mask = record {
  chain = λ p hp. elim (Bool-cases (p == 31)) [ inl e ↦ rw e (refl, refl) | inr e ↦ rw e ];
  tail = λ p hp. ground arith;
  distinct = λ p. elim (Bool-cases (p == 31)) [ inl e ↦ rw e (refl, tt) | inr e ↦ rw e tt ];
  inside = λ p i m. ground arith;
  queued = λ p i m. ground arith;
  apart = λ p q i m n. ground arith;
  ready = λ p hp. ground (arith, test_bit-pow 31 p);
  word = omega arith;
}

-- The links do not see the clock.
late_item-Linked : Linked (record (one_item 1) { ticks = 5000 }) one_list
late_item-Linked =
    Linked-frame (one_item 1) (record (one_item 1) { ticks = 5000 }) one_list
      (record { next = λ j. refl; in_queue = λ j. refl; runq = refl; bitmap = refl })
      (one_item-Linked 1)

entered-Linked : (mask : ℕ) → Linked (boost_if_due (enter (one_item mask))) one_list
unfolding boost_if_due
entered-Linked mask =
    Linked-frame (one_item mask) (boost_if_due (enter (one_item mask))) one_list
      (record { next = λ j. refl; in_queue = λ j. refl; runq = refl; bitmap = refl })
      (one_item-Linked mask)

one_list-only : (j : ℕ) → contains (one_list 31) j ≡ true → j ≡ 3
one_list-only j m = ground arith

item-IsStuck : IsStuck (item 2) 31
unfolding enqueue_prio level_to_prio test_bit
item-IsStuck = record { busy = refl; foreign = refl; level = refl }

one_item-IsStuck :
    (j : ℕ)
    → contains (one_list 31) j ≡ true
    → IsStuck ((boost_if_due (enter (one_item 2))).work j) 31
unfolding boost_if_due
one_item-IsStuck j m =
    subst (λ k. IsStuck ((boost_if_due (enter (one_item 2))).work k) 31) (sym (one_list-only j m))
      item-IsStuck

one_item-Complete : (mask : ℕ) → Complete (one_item mask) one_list
one_item-Complete mask i hi m = (31, ground arith)

one_item-Sound : (mask : ℕ) → Sound (one_item mask)
one_item-Sound mask = record {
  lists = one_list;
  linked = one_item-Linked mask;
  complete = one_item-Complete mask;
  named = λ i hi m. ground arith;
}

one_item-IsHighest : IsHighest one_list 31
one_item-IsHighest = record { in_range = omega arith; above = λ q a b. ground arith }

-- The work function does nothing.
abbrev no_call : ℕ → ℕ → Sched → Sched
no_call f i s = s

no_call-Lawful : Lawful no_call
no_call-Lawful = record { good = λ f i s g. g; ids = λ f i s j h. h }

abbrev request : Request
request = record {
  run = 9;
  userdata = 0;
  priority = 12;
  affinity_mask = 0;
  budget_ticks = 2;
  cache_hint = 0;
}

enqueue_refines_example :
    Linked (enqueue 5 (one_item 1)) (enqueued 5 (one_item 1) one_list)
    × Complete (enqueue 5 (one_item 1)) (enqueued 5 (one_item 1) one_list)
    × (((enqueue 5 (one_item 1)).work 5).in_queue ≡ true)
enqueue_refines_example =
    enqueue_refines 5 (one_item 1) one_list (omega arith) (one_item-Linked 1) (one_item-Complete 1)

dequeue_prio_refines_example :
    ((dequeue_prio 31 (one_item 1)).0 ≡ some 3)
    × Linked (dequeue_prio 31 (one_item 1)).1 (dequeued 31 one_list)
    × Complete (dequeue_prio 31 (one_item 1)).1 (dequeued 31 one_list)
dequeue_prio_refines_example =
    dequeue_prio_refines 31 (one_item 1) one_list (omega arith) (one_item-Linked 1)
      (one_item-Complete 1)

abbrev late_item : Sched
late_item = record (one_item 1) { ticks = 5000 }

boost_if_due-Placed_example :
    (v : Sound (boost_if_due late_item)) × SameNames late_item (boost_if_due late_item)
    × ((i : ℕ) → i < work_max → (late_item.work i).in_queue ≡ true → Placed i v.lists)
boost_if_due-Placed_example = boost_if_due-Placed late_item (record {
  lists = one_list;
  linked = late_item-Linked;
  complete = one_item-Complete 1;
  named = λ i hi m. ground arith;
})

on_timeslice_end-total_example :
    (r : Bool × Sched) × (on_timeslice_end no_call timeslice_fuel (one_item 1) ≡ some r)
unfolding test_bit
on_timeslice_end-total_example =
    on_timeslice_end-total no_call (one_item 1) (one_item-Sound 1) (λ i hi h. ground arith)

on_timeslice_end-runs_first_example :
    on_timeslice_end no_call 1 (one_item 1)
    ≡ some (
      true,
      record (execute no_call 3 (dequeue_prio 31 (boost_if_due (enter (one_item 1)))).1) {
        work_inflight = false;
      },
    )
unfolding boost_if_due remove_head test_bit
on_timeslice_end-runs_first_example =
    on_timeslice_end-runs_first no_call (one_item 1) one_list 31 3 [] 0 refl (entered-Linked 1)
      one_item-IsHighest refl refl refl

-- The same item bound to processor 1 alone.
on_timeslice_end-spins_example : on_timeslice_end no_call 1000000 (one_item 2) ≡ none
unfolding boost_if_due enqueue_prio level_to_prio test_bit
on_timeslice_end-spins_example =
    on_timeslice_end-spins no_call (one_item 2) one_list 31 3 [] 1000000 refl (entered-Linked 2)
      one_item-IsHighest refl one_item-IsStuck

run_calls-init_example :
    (t : Sched) × (run_calls no_call (registers request ∷ ends_slice ∷ []) (work_init (one_item 1))
      ≡ some t)
    × Good t
run_calls-init_example =
    run_calls-init no_call no_call-Lawful (registers request ∷ ends_slice ∷ []) (one_item 1)
      (inl refl, (tt, tt))
