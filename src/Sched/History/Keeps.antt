-- ===== src/Sched/History/Keeps.antt =====
-- Every history of the scheduler of src/cpu/sched.c returns and leaves sound queues.
use eyn_os.Base.{
  ℕ, ◌<◌, ◌≡◌, ◌≢◌, ◌∙◌, sym, refl, false, inl, inr, some, List, [], ◌∷◌, arith, ◌==◌,
  if◌then◌else◌, ltb, Bool-cases, Option-cases,
}
use mathlib.Core.Option
use eyn_os.Base.Bits.{test_bit}
use eyn_os.Base.Loop.{find_from}
use eyn_os.Sched.{Sched, Work, work_max, enqueue}
use eyn_os.Sched.Ops.{
  Request, register, fill_slot, new_work, set_ready, unready, update_budget, account_run, work_get,
  work_init, refill_slice, refill_budget,
}
use eyn_os.Sched.Invariant.Steps.{
  set_ready-Sound, unready-Sound, update_budget-Sound, account_run-Sound, enqueue-Sound, put_work,
  put_work-Sound, Sound-frame,
}
use eyn_os.Sched.Invariant.Register.{work_init-Sound, register-Sound, work_init-Blank}
use eyn_os.Sched.Timeslice.{execute, is_foreign, spend_budget}
use eyn_os.Sched.Timeslice.Items.{AllLocal, AllLocal-same, SameItems, enqueue-SameItems}
use eyn_os.Sched.Timeslice.Progress.{timeslice-Leaves}
use eyn_os.Sched.History.{
  Call, registers, readies, unreadies, budgets, ends_slice, Good, Lawful, IsNear, CallIsNear,
  AllNear, perform, run_calls,
}

account_run-SameItems : (i : ℕ) (s : Sched) → SameItems s (account_run i s)
unfolding account_run
account_run-SameItems i s j = ground arith

set_ready-SameItems : (id : ℕ) (s : Sched) → SameItems s (set_ready id s).1
unfolding set_ready
set_ready-SameItems id s j = elim (Option-cases (work_get s id)) [
  | inl e ↦ rw (e, set_ready) (refl, refl)
  | inr (i, e) ↦
      let t = put_work s i (refill_slice s (refill_budget (s.work i))) in
      let same : SameItems s t = λ k. ground arith in
      rw (e, set_ready)
        ((enqueue-SameItems i t j).0 ∙ (same j).0, (enqueue-SameItems i t j).1 ∙ (same j).1)
]

unready-SameItems : (id : ℕ) (s : Sched) → SameItems s (unready id s).1
unfolding unready
unready-SameItems id s j = ground arith

update_budget-SameItems : (id b : ℕ) (s : Sched) → SameItems s (update_budget id b s).1
unfolding update_budget
update_budget-SameItems id b s j = ground arith

new_work-near : (r : Request) (i : ℕ) (s : Sched) → IsNear r → is_foreign (new_work r i s) ≡ false
unfolding test_bit
new_work-near r i s (inl e) = ground arith
new_work-near r i s (inr e) = ground arith

fill_slot-AllLocal :
    (r : Request) (i : ℕ) (s : Sched) → IsNear r → AllLocal s → AllLocal (fill_slot r i s)
unfolding fill_slot
fill_slot-AllLocal r i s n a = elim (Bool-cases (r.budget_ticks == 0)) [
  | inl e ↦ rw e filled
  | inr e ↦ rw e (AllLocal-same t (enqueue i t) (enqueue-SameItems i t) filled)
]
  where
    t : Sched
    t = put_work s i (new_work r i s)

    filled : AllLocal t
    filled j hj h = elim (Bool-cases (i == j)) [
      | inl e ↦ rw e (new_work-near r i s n)
      | inr e ↦ rw e (a j hj (ground arith))
    ]

register-AllLocal : (r : Request) (s : Sched) → IsNear r → AllLocal s → AllLocal (register r s).1
unfolding register
register-AllLocal r s n a = elim (Bool-cases (r.run == 0)) [
  | inl e ↦ rw e a
  | inr e ↦ rw e (elim (Option-cases (find_from work_max 0 (λ i. (s.work i).id == 0))) [
    | inl h ↦ rw h a
    | inr (i, h) ↦ rw h (fill_slot-AllLocal r i s n a)
  ])
]

work_init-Good : (s : Sched) → Good (work_init s)
work_init-Good s = record {
  sound = work_init-Sound s;
  near = λ i hi h. absurd (h (work_init-Blank s i hi).0);
}

module _ (call : ℕ → ℕ → Sched → Sched) (lawful : Lawful call) where
  execute-Good :
      (i : ℕ) (s : Sched) → i < work_max → (s.work i).id ≢ 0 → Good s → Good (execute call i s)
  unfolding execute
  execute-Good i s hi hid g = counted
    where
      called : Sched
      called = call (s.work i).run i s

      spent : Sched
      spent = put_work called i (spend_budget (called.work i))

      w : Work
      w = spend_budget (called.work i)

      same : SameItems called spent
      same j = ground arith

      accounted : Sched
      accounted = account_run i spent

      good_accounted : Good accounted
      good_accounted = record {
        sound = account_run-Sound i spent (
            put_work-Sound called i (spend_budget (called.work i)) (ground arith) (ground arith)
              (ground arith) (lawful.good (s.work i).run i s g).sound);
        near =
            AllLocal-same spent accounted (account_run-SameItems i spent)
              (AllLocal-same called spent same (lawful.good (s.work i).run i s g).near);
      }

      registered : (accounted.work i).id ≢ 0
      registered e =
          lawful.ids (s.work i).run i s i hid
            (sym (same i).0 ∙ sym (account_run-SameItems i spent i).0 ∙ e)

      queued : Sched
      queued = if ltb 0 (accounted.work i).budget_left then enqueue i accounted else accounted

      good_queued : Good queued
      good_queued = elim (Bool-cases (ltb 0 (accounted.work i).budget_left)) [
        | inl e ↦ rw e (record {
          sound = enqueue-Sound i accounted hi registered good_accounted.sound;
          near =
              AllLocal-same accounted (enqueue i accounted) (enqueue-SameItems i accounted)
                good_accounted.near;
        })
        | inr e ↦ rw e good_accounted
      ]

      counted : Good (execute call i s)
      counted = record {
        sound =
            Sound-frame queued (execute call i s)
              (record { next = λ j. refl; in_queue = λ j. refl; runq = refl; bitmap = refl })
              (λ j e. e) good_queued.sound;
        near = good_queued.near;
      }

  lowered-Good : (s : Sched) → Good s → Good (record s { work_inflight = false })
  lowered-Good s g = record {
    sound =
        Sound-frame s (record s { work_inflight = false })
          (record { next = λ j. refl; in_queue = λ j. refl; runq = refl; bitmap = refl }) (λ j e. e)
          g.sound;
    near = g.near;
  }

  perform-Good :
      (c : Call) (s : Sched)
      → CallIsNear c
      → Good s
      → (t : Sched) × (perform call c s ≡ some t) × Good t
  unfolding perform
  perform-Good (registers r) s n g = (
    (register r s).1,
    refl,
    record { sound = register-Sound r s g.sound; near = register-AllLocal r s n g.near },
  )
  perform-Good (readies id) s n g = (
    (set_ready id s).1,
    refl,
    record {
      sound = set_ready-Sound id s g.sound;
      near = AllLocal-same s (set_ready id s).1 (set_ready-SameItems id s) g.near;
    },
  )
  perform-Good (unreadies id) s n g = (
    (unready id s).1,
    refl,
    record {
      sound = unready-Sound id s g.sound;
      near = AllLocal-same s (unready id s).1 (unready-SameItems id s) g.near;
    },
  )
  perform-Good (budgets id b) s n g = (
    (update_budget id b s).1,
    refl,
    record {
      sound = update_budget-Sound id b s g.sound;
      near = AllLocal-same s (update_budget id b s).1 (update_budget-SameItems id b s) g.near;
    },
  )
  perform-Good ends_slice s n g =
      let (r, e, q) =
        timeslice-Leaves call Good
          (record {
            stops = λ t v a. record { sound = v; near = a };
            runs = λ i t hi h v a. execute-Good i t hi h (record { sound = v; near = a });
          })
          s g.sound g.near g lowered-Good in
      (r.1, rw e, q)

  run_calls-Good :
      (cs : List Call) (s : Sched)
      → AllNear cs
      → Good s
      → (t : Sched) × (run_calls call cs s ≡ some t) × Good t
  unfolding run_calls Option.bind
  run_calls-Good [] s n g = (s, refl, g)
  run_calls-Good (c ∷ cs) s n g =
      let (t, e, gt) = perform-Good c s n.0 g in
      let (u, e', gu) = run_calls-Good cs t n.1 gt in (u, rw (e, e'), gu)

  -- From `sched_work_init`, any calls whose registrations allow this processor all return, and leave
  -- sound queues and every item allowed on this processor, provided every work function keeps the
  -- queues sound and every item allowed on this processor, and takes no id away.
  pub run_calls-init :
      (cs : List Call) (s : Sched)
      → AllNear cs
      → (t : Sched) × (run_calls call cs (work_init s) ≡ some t) × Good t
  run_calls-init cs s n = run_calls-Good cs (work_init s) n (work_init-Good s)
