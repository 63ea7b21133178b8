-- ===== src/Sched/Invariant/Register.antt =====
-- `sched_work_init` and `sched_work_register` of src/cpu/sched.c.
use eyn_os.Base.{
  ℕ, ◌+◌, ◌<◌, ◌≡◌, refl, false, inl, inr, [], arith, ◌==◌, ==_iff, Bool-cases, Option-cases,
  contains,
}
use eyn_os.Base.Loop.{for_range, for_range_inv, find_from, find_from-some}
use eyn_os.Sched.{Sched, work_max, work_prios}
use eyn_os.Sched.Ops.{Request, new_work, fill_slot, register, work_init, clear_work, clear_queue}
use eyn_os.Sched.Invariant.{Sound}
use eyn_os.Sched.Invariant.Steps.{put_work, Linked-put_work, enqueue-Sound}
use eyn_os.Sched.Invariant.Boost.{IsEmpty-Linked, Cleared, clear_queues}

-- Every item below `k` is unregistered and out of the queues.
abbrev pub Blank : ℕ → Sched → Type 0
Blank k s = (i : ℕ) → i < k → ((s.work i).id ≡ 0) × ((s.work i).in_queue ≡ false)

clear_work-Blank : (k : ℕ) (s : Sched) → Blank k s → Blank (k + 1) (clear_work k s)
clear_work-Blank k s b i hi = ground (arith, b i)

pub work_init-Blank : (s : Sched) → Blank work_max (work_init s)
unfolding work_init
work_init-Blank s i hi = rw (clear_queues (for_range work_max 0 clear_work s)).0 (
    for_range_inv Blank clear_work work_max 0 work_max s (omega arith)
      (λ k t a b. clear_work-Blank k t) (λ i hi. absurd (omega arith)) i hi)

-- `sched_work_init` leaves 32 empty queues, whatever the state was before.
pub work_init-Sound : (s : Sched) → Sound (work_init s)
unfolding work_init
work_init-Sound s = record {
  lists = λ p. [];
  linked = IsEmpty-Linked (work_init s) queues.1 refl;
  complete = λ i hi m. ground (arith, blank i hi);
  named = λ i hi m. ground (arith, blank i hi);
}
  where
    cleared : Sched
    cleared = for_range work_max 0 clear_work s

    queues : Cleared cleared work_prios (for_range work_prios 0 clear_queue cleared)
    queues = clear_queues cleared

    blank : Blank work_max (work_init s)
    blank = work_init-Blank s

module _ (r : Request) (i : ℕ) (s : Sched) (hi : i < work_max) (free : (s.work i).id ≡ 0)
    (v : Sound s) where
  unmarked_slot : (s.work i).in_queue ≡ false
  unmarked_slot = elim (Bool-cases (s.work i).in_queue) [
    | inl m ↦ absurd (v.named i hi m free)
    | inr m ↦ m
  ]

  fresh_slot : (p : ℕ) → contains (v.lists p) i ≡ false
  fresh_slot p = elim (Bool-cases (contains (v.lists p) i)) [
    | inl m ↦ ground (arith, v.linked.queued p i m, unmarked_slot)
    | inr m ↦ m
  ]

  filled-Sound : Sound (put_work s i (new_work r i s))
  filled-Sound = record {
    lists = v.lists;
    linked = Linked-put_work s v.lists i (new_work r i s) fresh_slot v.linked;
    complete = λ j hj m. ground (arith, v.complete j hj);
    named = λ j hj m. ground (arith, v.named j hj);
  }

  fill_slot-Sound : Sound (fill_slot r i s)
  unfolding fill_slot
  fill_slot-Sound = elim (Bool-cases (r.budget_ticks == 0)) [
    | inl e ↦ rw e filled-Sound
    | inr e ↦ rw e (enqueue-Sound i (put_work s i (new_work r i s)) hi (ground arith) filled-Sound)
  ]

-- `sched_work_register` keeps the queues sound, whether it finds a slot or not.
pub register-Sound : (r : Request) (s : Sched) → Sound s → Sound (register r s).1
unfolding register
register-Sound r s v = elim (Bool-cases (r.run == 0)) [
  | inl e ↦ rw e v
  | inr e ↦ rw e (elim (Option-cases (find_from work_max 0 (λ i. (s.work i).id == 0))) [
    | inl h ↦ rw h v
    | inr (i, h) ↦
        let found = find_from-some work_max 0 (λ i. (s.work i).id == 0) i h in
        rw h (fill_slot-Sound r i s (omega (arith, found.1)) ((==_iff (s.work i).id 0).0 found.2) v)
  ])
]
