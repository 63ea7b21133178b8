-- ===== src/Sched/Invariant/Steps.antt =====
-- Each operation of src/cpu/sched.c keeps the queues sound.
use eyn_os.Base.{
  ℕ, ◌<◌, ◌≡◌, ◌≢◌, ◌∙◌, sym, refl, true, false, some, inl, inr, List, arith, ◌==◌, if◌then◌else◌,
  update, Bool-cases, Option-cases, contains,
}
use eyn_os.Sched.{
  Sched, Work, work_max, work_prios, enqueue, dequeue_prio, remove_head, append_work, enqueue_prio,
}
use eyn_os.Sched.Queues.{Linked}
use eyn_os.Sched.Queues.Append.{in_queue-append}
use eyn_os.Sched.Queues.Enqueue.{
  enqueue-Linked, enqueue-Placed, enqueued, enqueue_queued, enqueue_fresh,
}
use eyn_os.Sched.Queues.Dequeue.{dequeued, dequeue_prio-Linked, dequeue_prio-Complete}
use eyn_os.Sched.Queues.Links.{Chain-frame}
use eyn_os.Sched.Queues.Frame.{SameLinks, Linked-frame, Complete-frame}
use eyn_os.Sched.Ops.{
  work_get, refill_budget, refill_slice, limit_budget, account_run, spend_slice, end_slice,
  set_ready, unready, update_budget,
}
use eyn_os.Sched.Invariant.{Sound}

pub id-enqueue : (i j : ℕ) (s : Sched) → i < work_max → ((enqueue i s).work j).id ≡ (s.work j).id
unfolding enqueue append_work
id-enqueue i j s hi = ground arith

pub in_queue-enqueue :
    (i j : ℕ) (s : Sched)
    → i < work_max
    → ((enqueue i s).work j).in_queue ≡ (if i == j then true else (s.work j).in_queue)
in_queue-enqueue i j s hi = elim (Bool-cases (s.work i).in_queue) [
  | inl e ↦ rw (enqueue_queued i s hi e) (ground arith)
  | inr e ↦ rw (enqueue_fresh i s hi e) (in_queue-append (enqueue_prio (s.work i)) i s j)
]

pub enqueue-Sound :
    (i : ℕ) (s : Sched) → i < work_max → (s.work i).id ≢ 0 → Sound s → Sound (enqueue i s)
enqueue-Sound i s hi hid v = record {
  lists = enqueued i s v.lists;
  linked = enqueue-Linked i s hi v.lists v.linked;
  complete = λ j hj. enqueue-Placed i s hi v.lists j (v.complete j hj);
  named = λ j hj m. ground (arith, id-enqueue i j s hi, in_queue-enqueue i j s hi, v.named j hj);
}

pub Sound-frame :
    (s t : Sched)
    → SameLinks s t
    → ((j : ℕ) → (t.work j).id ≡ 0 → (s.work j).id ≡ 0)
    → Sound s
    → Sound t
Sound-frame s t h ids v = record {
  lists = v.lists;
  linked = Linked-frame s t v.lists h v.linked;
  complete = Complete-frame s t v.lists h v.complete;
  named = λ j hj m e. v.named j hj (sym (h.in_queue j) ∙ m) (ids j e);
}

-- Writing an item without its links.
abbrev pub put_work : Sched → ℕ → Work → Sched
put_work s i w = record s { work = update s.work i w }

pub put_work-SameLinks :
    (s : Sched) (i : ℕ) (w : Work)
    → w.next ≡ (s.work i).next
    → w.in_queue ≡ (s.work i).in_queue
    → SameLinks s (put_work s i w)
put_work-SameLinks s i w n q = record {
  next = λ j. ground arith;
  in_queue = λ j. ground arith;
  runq = refl;
  bitmap = refl;
}

pub put_work-Sound :
    (s : Sched) (i : ℕ) (w : Work)
    → w.next ≡ (s.work i).next
    → w.in_queue ≡ (s.work i).in_queue
    → w.id ≡ (s.work i).id
    → Sound s
    → Sound (put_work s i w)
put_work-Sound s i w n q d v =
    Sound-frame s (put_work s i w) (put_work-SameLinks s i w n q) (λ j e. ground arith) v

pub work_get-some :
    (s : Sched) (id i : ℕ) → work_get s id ≡ some i → (i < work_max) × ((s.work i).id ≢ 0)
unfolding work_get
work_get-some s id i e = ground arith

pub set_ready-Sound : (id : ℕ) (s : Sched) → Sound s → Sound (set_ready id s).1
unfolding set_ready
set_ready-Sound id s v = elim (Option-cases (work_get s id)) [
  | inl e ↦ rw (e, set_ready) v
  | inr (i, e) ↦
      let w = refill_slice s (refill_budget (s.work i)) in
      let same : (w.next ≡ (s.work i).next)
          × (w.in_queue ≡ (s.work i).in_queue)
          × (w.id ≡ (s.work i).id) =
        ground arith in
      rw (e, set_ready)
        (enqueue-Sound i (put_work s i w) (work_get-some s id i e).0
          (ground (arith, work_get-some s id i e)) (put_work-Sound s i w same.0 same.1 same.2 v))
]

pub unready-Sound : (id : ℕ) (s : Sched) → Sound s → Sound (unready id s).1
unfolding unready
unready-Sound id s v = elim (Option-cases (work_get s id)) [
  | inl e ↦ rw (e, unready) v
  | inr (i, e) ↦
      rw (e, unready) (put_work-Sound s i (record (s.work i) { budget_left = 0 }) refl refl refl v)
]

pub update_budget-Sound : (id b : ℕ) (s : Sched) → Sound s → Sound (update_budget id b s).1
unfolding update_budget
update_budget-Sound id b s v = elim (Option-cases (work_get s id)) [
  | inl e ↦ rw (e, update_budget) v
  | inr (i, e) ↦
      rw (e, update_budget) (put_work-Sound s i (limit_budget b (s.work i)) refl refl refl v)
]

pub account_run-Sound : (i : ℕ) (s : Sched) → Sound s → Sound (account_run i s)
unfolding account_run
account_run-Sound i s v =
    let w = record (end_slice s (spend_slice (s.work i))) { mlfq_last_boost_tick = s.ticks } in
    let same : (w.next ≡ (s.work i).next)
        × (w.in_queue ≡ (s.work i).in_queue)
        × (w.id ≡ (s.work i).id) =
      ground arith in
    Sound-frame (put_work s i w) (account_run i s)
      (record { next = λ j. refl; in_queue = λ j. refl; runq = refl; bitmap = refl }) (λ j e. e)
      (put_work-Sound s i w same.0 same.1 same.2 v)

id-dequeue_prio : (p : ℕ) (s : Sched) (j : ℕ) → ((dequeue_prio p s).1.work j).id ≡ (s.work j).id
unfolding dequeue_prio remove_head
id-dequeue_prio p s j = ground arith

marked-dequeue_prio :
    (p : ℕ) (s : Sched) (j : ℕ)
    → ((dequeue_prio p s).1.work j).in_queue ≡ true
    → (s.work j).in_queue ≡ true
unfolding dequeue_prio remove_head
marked-dequeue_prio p s j m = ground arith

pub dequeue_prio-Sound : (p : ℕ) (s : Sched) → p < work_prios → Sound s → Sound (dequeue_prio p s).1
dequeue_prio-Sound p s hp v = record {
  lists = dequeued p v.lists;
  linked = (dequeue_prio-Linked p s hp v.lists v.linked).1;
  complete = dequeue_prio-Complete p s hp v.lists v.linked v.complete;
  named = λ j hj m e. v.named j hj (marked-dequeue_prio p s j m) (sym (id-dequeue_prio p s j) ∙ e);
}

-- An item in no queue may be written over in every field.
pub Linked-put_work :
    (s : Sched) (qs : ℕ → List ℕ) (i : ℕ) (w : Work)
    → ((p : ℕ) → contains (qs p) i ≡ false)
    → Linked s qs
    → Linked (put_work s i w) qs
Linked-put_work s qs i w fresh l = record {
  chain = λ p hp.
      Chain-frame s.work (put_work s i w).work (s.runq p).head (qs p)
        (λ j m. ground (arith, fresh p)) (l.chain p hp);
  tail = l.tail;
  distinct = l.distinct;
  inside = l.inside;
  queued = λ p j m. ground (arith, fresh p, l.queued p j m);
  apart = l.apart;
  ready = l.ready;
  word = l.word;
}
