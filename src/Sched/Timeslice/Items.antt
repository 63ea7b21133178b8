-- ===== src/Sched/Timeslice/Items.antt =====
-- No operation of the scheduler loop in src/cpu/sched.c changes an id or an affinity mask.
use eyn_os.Base.{ℕ, ◌<◌, ◌≡◌, ◌≢◌, ◌∙◌, refl, false, none, arith, update}
use eyn_os.Base.Loop.{for_range, for_range_inv}
use eyn_os.Sched.{Sched, work_max, work_prios, dequeue_prio, remove_head, enqueue, append_work}
use eyn_os.Sched.Ops.{boost, requeue, requeue_all, clear_queue, boost_if_due}
use eyn_os.Sched.Timeslice.{is_foreign}

-- Every registered item may run on processor 0.
abbrev pub AllLocal : Sched → Type 0
AllLocal s = (i : ℕ) → i < work_max → (s.work i).id ≢ 0 → is_foreign (s.work i) ≡ false

-- `t` has the ids and affinities of `s`.
abbrev pub SameItems : Sched → Sched → Type 0
SameItems s t =
    (i : ℕ)
    → ((t.work i).id ≡ (s.work i).id) × ((t.work i).affinity_mask ≡ (s.work i).affinity_mask)

pub AllLocal-same : (s t : Sched) → SameItems s t → AllLocal s → AllLocal t
AllLocal-same s t h a i hi e = rw (h i).1 (a i hi (λ z. e ((h i).0 ∙ z)))

pub dequeue_prio-SameItems : (p : ℕ) (s : Sched) → SameItems s (dequeue_prio p s).1
unfolding dequeue_prio remove_head
dequeue_prio-SameItems p s i = ground arith

pub enqueue-SameItems : (k : ℕ) (s : Sched) → SameItems s (enqueue k s)
unfolding enqueue append_work
enqueue-SameItems k s i = ground arith

boost-SameItems : (s : Sched) (k : ℕ) (t : Sched) → SameItems s t → SameItems s (boost k t)
unfolding boost
boost-SameItems s k t h i = ground (arith, h i)

requeue-SameItems : (s : Sched) (k : ℕ) (t : Sched) → SameItems s t → SameItems s (requeue k t)
unfolding requeue
requeue-SameItems s k t h i = ground (
  arith,
  h i,
  enqueue-SameItems k
      (record t { work = update t.work k (record (t.work k) { in_queue = false; next = none }) }) i,
)

clear_queue-SameItems :
    (s : Sched) (k : ℕ) (t : Sched) → SameItems s t → SameItems s (clear_queue k t)
clear_queue-SameItems s k t h i = h i

loop-SameItems :
    (s t : Sched) (n : ℕ) (body : ℕ → Sched → Sched)
    → ((k : ℕ) (u : Sched) → SameItems s u → SameItems s (body k u))
    → SameItems s t
    → SameItems s (for_range n 0 body t)
loop-SameItems s t n body keep h =
    for_range_inv (λ k. SameItems s) body n 0 n t (omega arith) (λ k u a b. keep k u) h

requeue_all-SameItems : (s t : Sched) → SameItems s t → SameItems s (requeue_all t)
unfolding requeue_all
requeue_all-SameItems s t h =
    loop-SameItems s (record (for_range work_prios 0 clear_queue t) { ready_bitmap = 0 }) work_max
      requeue (requeue-SameItems s)
      (loop-SameItems s t work_prios clear_queue (clear_queue-SameItems s) h)

pub boost_if_due-SameItems : (s : Sched) → SameItems s (boost_if_due s)
unfolding boost_if_due
boost_if_due-SameItems s i = ground (
  arith,
  requeue_all-SameItems s (for_range work_max 0 boost s)
      (loop-SameItems s s work_max boost (boost-SameItems s) (λ j. (refl, refl))) i,
)
