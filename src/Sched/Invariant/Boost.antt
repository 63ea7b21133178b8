-- ===== src/Sched/Invariant/Boost.antt =====
-- The global boost of src/cpu/sched.c empties every queue and fills them again: nothing is lost.
use eyn_os.Base.{
  ℕ, ◌+◌, ◌<◌, ◌≡◌, ◌≢◌, ◌∙◌, sym, ap, refl, true, false, not, ◌||◌, none, inl, inr, List, [],
  arith, ◌==◌, Bool-cases, contains, ltb,
}
use eyn_os.Base.Bits.{test_bit-zero}
use eyn_os.Base.Loop.{for_range, for_range_inv}
use eyn_os.Sched.{Sched, Work, RunQueue, empty_queue, work_max, work_prios, sub32, enqueue}
use eyn_os.Sched.Queues.{Linked, Placed}
use eyn_os.Sched.Queues.Enqueue.{enqueue-Linked, enqueue-Placed, enqueued, enqueued_mem}
use eyn_os.Sched.Ops.{clear_queue, requeue, requeue_all, boost, boost_if_due}
use eyn_os.Sched.Invariant.{Sound}
use eyn_os.Sched.Invariant.Steps.{
  put_work, Linked-put_work, id-enqueue, in_queue-enqueue, Sound-frame,
}

-- No queue holds anything.
pub IsEmpty-Linked :
    (s : Sched)
    → ((p : ℕ) → p < work_prios → s.runq p ≡ empty_queue)
    → s.ready_bitmap ≡ 0
    → Linked s (λ p. [])
IsEmpty-Linked s q b = record {
  chain = λ p hp. ap (λ (r : RunQueue). r.head) (q p hp);
  tail = λ p hp. ap (λ (r : RunQueue). r.tail) (q p hp);
  distinct = λ p. tt;
  inside = λ p i m. cc;
  queued = λ p i m. cc;
  apart = λ p r i m n. cc;
  ready = λ p hp. rw b (test_bit-zero p);
  word = rw b (omega arith);
}

-- What the loop over the run queues leaves.
abbrev pub Cleared : Sched → ℕ → Sched → Type 0
Cleared s k t = (t.work ≡ s.work) × ((p : ℕ) → p < k → t.runq p ≡ empty_queue)

clear_queue-Cleared :
    (s : Sched) (k : ℕ) (t : Sched) → Cleared s k t → Cleared s (k + 1) (clear_queue k t)
clear_queue-Cleared s k t (w, c) = (w, λ p hp. ground (arith, c p))

pub clear_queues : (s : Sched) → Cleared s work_prios (for_range work_prios 0 clear_queue s)
clear_queues s =
    for_range_inv (Cleared s) clear_queue work_prios 0 work_prios s (omega arith)
      (λ k t a b. clear_queue-Cleared s k t) (refl, λ p hp. absurd (omega arith))

-- The queues hold what is marked among the items below `k`, and no other.
record Requeued (k : ℕ) (s : Sched) : Type 0 where
  lists : ℕ → List ℕ
  linked : Linked s lists
  seen : (p i : ℕ) → contains (lists p) i ≡ true → i < k
  complete : (i : ℕ) → i < k → (s.work i).in_queue ≡ true → Placed i lists
  named : (i : ℕ) → i < work_max → (s.work i).in_queue ≡ true → (s.work i).id ≢ 0

module _ (k : ℕ) (s : Sched) (hk : k < work_max) (r : Requeued k s) where
  fresh : (p : ℕ) → contains (r.lists p) k ≡ false
  fresh p = elim (Bool-cases (contains (r.lists p) k)) [
    | inl m ↦ absurd (omega (arith, r.seen p k m))
    | inr m ↦ m
  ]

  skip : ((s.work k).in_queue ≡ true → ⊥) → Requeued (k + 1) s
  skip h = record {
    lists = r.lists;
    linked = r.linked;
    seen = λ p i m. omega (arith, r.seen p i m);
    complete = λ i hi m. r.complete i (ground arith) m;
    named = r.named;
  }

  abbrev unmarked : Work
  unmarked = record (s.work k) { in_queue = false; next = none }

  again : (s.work k).id ≢ 0 → Requeued (k + 1) (enqueue k (put_work s k unmarked))
  again hid = record {
    lists = enqueued k (put_work s k unmarked) r.lists;
    linked =
        enqueue-Linked k (put_work s k unmarked) hk r.lists
          (Linked-put_work s r.lists k unmarked fresh r.linked);
    seen = λ p i m.
        ground (arith, enqueued_mem k (put_work s k unmarked) hk r.lists p i m, r.seen p i);
    complete = λ i hi.
        enqueue-Placed k (put_work s k unmarked) hk r.lists i
          (λ m. r.complete i (ground arith) (ground arith));
    named = λ i hi m. ground (
      arith,
      in_queue-enqueue k i (put_work s k unmarked) hk,
      id-enqueue k i (put_work s k unmarked) hk,
      r.named i hi,
    );
  }

  requeue-Requeued : Requeued (k + 1) (requeue k s)
  unfolding requeue
  requeue-Requeued = elim (Bool-cases (((s.work k).id == 0) || not (s.work k).in_queue)) [
    | inl e ↦ rw (e, requeue) (skip (λ m. ground (arith, r.named k hk m)))
    | inr e ↦ rw (e, requeue) (again (ground arith))
  ]

pub requeue_all-Sound :
    (s : Sched)
    → ((i : ℕ) → i < work_max → (s.work i).in_queue ≡ true → (s.work i).id ≢ 0)
    → Sound (requeue_all s)
unfolding requeue_all
requeue_all-Sound s named = record {
  lists = done.lists;
  linked = done.linked;
  complete = done.complete;
  named = done.named;
}
  where
    cleared : Sched
    cleared = record (for_range work_prios 0 clear_queue s) { ready_bitmap = 0 }

    start : Requeued 0 cleared
    start = record {
      lists = λ p. [];
      linked = IsEmpty-Linked cleared (clear_queues s).1 refl;
      seen = λ p i m. cc;
      complete = λ i hi m. absurd (omega arith);
      named = λ i hi m. ground (arith, (clear_queues s).0, named i hi);
    }

    done : Requeued work_max (for_range work_max 0 requeue cleared)
    done =
        for_range_inv Requeued requeue work_max 0 work_max cleared (omega arith)
          (λ k t a b r. requeue-Requeued k t b r) start

-- The same ids, and the same items marked as queued.
abbrev pub SameNames : Sched → Sched → Type 0
SameNames s t =
    (i : ℕ) → ((t.work i).id ≡ (s.work i).id) × ((t.work i).in_queue ≡ (s.work i).in_queue)

boost-SameNames : (s : Sched) (k : ℕ) (t : Sched) → SameNames s t → SameNames s (boost k t)
unfolding boost
boost-SameNames s k t h i = ground (arith, h i)

-- The boost keeps the queues sound, due or not.
pub boost_if_due-Sound : (s : Sched) → Sound s → Sound (boost_if_due s)
unfolding boost_if_due
boost_if_due-Sound s v =
    elim (Bool-cases (ltb (sub32 s.ticks s.last_global_boost_tick) s.boost_interval_ticks)) [
      | inl e ↦ rw (e, boost_if_due) v
      | inr e ↦
          rw (e, boost_if_due)
            (Sound-frame (requeue_all raised) _
              (record { next = λ j. refl; in_queue = λ j. refl; runq = refl; bitmap = refl })
              (λ j h. h) (requeue_all-Sound raised named))
    ]
  where
    raised : Sched
    raised = for_range work_max 0 boost s

    same : SameNames s raised
    same =
        for_range_inv (λ k. SameNames s) boost work_max 0 work_max s (omega arith)
          (λ k t a b. boost-SameNames s k t) (λ i. (refl, refl))

    named : (i : ℕ) → i < work_max → (raised.work i).in_queue ≡ true → (raised.work i).id ≢ 0
    named i hi m = λ e. v.named i hi (sym (same i).1 ∙ m) (sym (same i).0 ∙ e)

-- An item that is taken off and queued again is marked as before.
requeue-SameNames :
    (s : Sched) (k : ℕ) (t : Sched) → k < work_max → SameNames s t → SameNames s (requeue k t)
unfolding requeue
requeue-SameNames s k t l h i =
    let now = record (t.work k) { in_queue = false; next = none } in
    ground
      (arith, h i, in_queue-enqueue k i (put_work t k now) l, id-enqueue k i (put_work t k now) l)

requeue_all-SameNames : (s : Sched) (t : Sched) → SameNames s t → SameNames s (requeue_all t)
unfolding requeue_all
requeue_all-SameNames s t h =
    for_range_inv (λ k. SameNames s) requeue work_max 0 work_max
      (record (for_range work_prios 0 clear_queue t) { ready_bitmap = 0 }) (omega arith)
      (λ k u a l. requeue-SameNames s k u l) (λ i. ground (arith, h i, (clear_queues t).0))

boost_if_due-SameNames : (s : Sched) → SameNames s (boost_if_due s)
unfolding boost_if_due
boost_if_due-SameNames s =
    let boosted =
      for_range_inv (λ k. SameNames s) boost work_max 0 work_max s (omega arith)
        (λ k t a b. boost-SameNames s k t) (λ i. (refl, refl)) in
    elim (Bool-cases (ltb (sub32 s.ticks s.last_global_boost_tick) s.boost_interval_ticks)) [
      | inl e ↦ simp e (λ i. (refl, refl))
      | inr e ↦ simp e (requeue_all-SameNames s (for_range work_max 0 boost s) boosted)
    ]

-- On sound queues the boost, due or not, keeps the queues sound, registers and removes no item and marks
-- the same items as queued; every item that was queued stands in a queue afterwards.
pub boost_if_due-Placed :
    (s : Sched)
    → Sound s
    → (v : Sound (boost_if_due s)) × SameNames s (boost_if_due s)
      × ((i : ℕ) → i < work_max → (s.work i).in_queue ≡ true → Placed i v.lists)
boost_if_due-Placed s v =
    let after = boost_if_due-Sound s v in
    let same = boost_if_due-SameNames s in
    (after, same, λ i l q. after.complete i l ((same i).1 ∙ q))
