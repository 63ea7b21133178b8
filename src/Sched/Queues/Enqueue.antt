-- ===== src/Sched/Queues/Enqueue.antt =====
-- `sched_work_enqueue` of src/cpu/sched.c, seen as lists.
use eyn_os.Base.{
  ℕ, ◌<◌, ◌≡◌, true, false, inl, inr, ◌⊎◌, List, arith, ◌==◌, if◌then◌else◌, contains, Bool-cases,
  lt→not-leb,
}
use eyn_os.Sched.{Sched, Work, work_max, work_prios, append_work, enqueue, enqueue_prio}
use eyn_os.Sched.Queues.{Linked, Placed, Complete}
use eyn_os.Sched.Queues.Append.{
  push_back, in_queue-append, append_work-Linked, Placed-push_back, Placed-push_back_self,
  contains-push_back,
}

enqueue_prio-lt : (w : Work) → enqueue_prio w < work_prios
unfolding enqueue_prio
enqueue_prio-lt w = ground arith

-- The lists after `sched_work_enqueue`: an item that is queued already is not queued again.
abbrev pub enqueued : ℕ → Sched → (ℕ → List ℕ) → ℕ → List ℕ
enqueued i s qs = if (s.work i).in_queue then qs else push_back (enqueue_prio (s.work i)) i qs

pub fresh_of_not_queued :
    (i : ℕ) (s : Sched) (qs : ℕ → List ℕ)
    → Linked s qs
    → (s.work i).in_queue ≡ false
    → (q : ℕ) → contains (qs q) i ≡ false
fresh_of_not_queued i s qs l e q = elim (Bool-cases (contains (qs q) i)) [
  | inl m ↦ ground (arith, l.queued q i m)
  | inr m ↦ m
]

module _ (i : ℕ) (s : Sched) (hi : i < work_max) where
  pub enqueue_queued : (s.work i).in_queue ≡ true → enqueue i s ≡ s
  unfolding enqueue
  enqueue_queued e = simp (lt→not-leb i work_max hi, e)

  pub enqueue_fresh :
      (s.work i).in_queue ≡ false → enqueue i s ≡ append_work (enqueue_prio (s.work i)) i s
  unfolding enqueue
  enqueue_fresh e = simp (lt→not-leb i work_max hi, e)

  module _ (qs : ℕ → List ℕ) where
    enqueued_queued : (s.work i).in_queue ≡ true → enqueued i s qs ≡ qs
    enqueued_queued e = simp e

    enqueued_fresh :
        (s.work i).in_queue ≡ false → enqueued i s qs ≡ push_back (enqueue_prio (s.work i)) i qs
    enqueued_fresh e = simp e

    -- What stands in a list afterwards stood there before or is the item.
    pub enqueued_mem :
        (q j : ℕ) → contains (enqueued i s qs q) j ≡ true → (contains (qs q) j ≡ true) ⊎ (i ≡ j)
    enqueued_mem q j m = ground (arith, contains-push_back (enqueue_prio (s.work i)) i qs q j)

    -- `sched_work_enqueue` appends the item to the list of its priority, unless it is queued.
    pub enqueue-Linked : Linked s qs → Linked (enqueue i s) (enqueued i s qs)
    enqueue-Linked l = elim (Bool-cases (s.work i).in_queue) [
      | inl e ↦ rw (enqueue_queued e, enqueued_queued e) l
      | inr e ↦
          rw (enqueue_fresh e, enqueued_fresh e)
            (append_work-Linked (enqueue_prio (s.work i)) i s qs l (enqueue_prio-lt (s.work i)) hi
              (fresh_of_not_queued i s qs l e))
    ]

    -- No item that was queued is lost, and the item itself is queued.
    pub enqueue-Placed :
        (j : ℕ)
        → ((s.work j).in_queue ≡ true → Placed j qs)
        → ((enqueue i s).work j).in_queue ≡ true
        → Placed j (enqueued i s qs)
    enqueue-Placed j old e = elim (Bool-cases (s.work i).in_queue) [
      | inl h ↦ rw (enqueued_queued h) (old (rw (enqueue_queued h) at e))
      | inr h ↦ rw (enqueued_fresh h) (placed h)
    ]
      where
        placed : (s.work i).in_queue ≡ false → Placed j (push_back (enqueue_prio (s.work i)) i qs)
        placed h = elim (Bool-cases (i == j)) [
          | inl same ↦ Placed-push_back_self (enqueue_prio (s.work i)) i qs j same
          | inr other ↦ Placed-push_back (enqueue_prio (s.work i)) i qs j (
              old
                (ground (arith, in_queue-append (enqueue_prio (s.work i)) i s j, enqueue_fresh h)))
        ]

-- `sched_work_enqueue` appends the item to the list of its priority, or changes nothing if it is
-- queued already; nothing that was queued is lost, and the item is queued.
pub enqueue_refines :
    (i : ℕ) (s : Sched) (qs : ℕ → List ℕ)
    → i < work_max
    → Linked s qs
    → Complete s qs
    → Linked (enqueue i s) (enqueued i s qs)
      × Complete (enqueue i s) (enqueued i s qs)
      × (((enqueue i s).work i).in_queue ≡ true)
enqueue_refines i s qs hi l c =
    (enqueue-Linked i s hi qs l, λ j hj. enqueue-Placed i s hi qs j (c j hj), marked)
  where
    marked : ((enqueue i s).work i).in_queue ≡ true
    marked = elim (Bool-cases (s.work i).in_queue) [
      | inl e ↦ rw (enqueue_queued i s hi e) e
      | inr e ↦
          rw (enqueue_fresh i s hi e)
            (ground (arith, in_queue-append (enqueue_prio (s.work i)) i s i))
    ]
