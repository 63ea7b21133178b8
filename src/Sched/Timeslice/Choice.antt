-- ===== src/Sched/Timeslice/Choice.antt =====
-- Which item `sched_work_on_timeslice_end` of src/cpu/sched.c runs.
use eyn_os.Base.{ℕ, suc, ◌<◌, ◌≡◌, ◌∙◌, ap, true, false, some, List, [], ◌∷◌, is_cons}
use eyn_os.Sched.{Sched, work_prios, bsr32, dequeue_prio, remove_head}
use eyn_os.Sched.Queues.{Linked}
use eyn_os.Sched.Queues.Dequeue.{dequeue_prio-some, head_of_list}
use eyn_os.Sched.Ops.{boost_if_due}
use eyn_os.Sched.Timeslice.{is_idle, is_foreign, execute, on_timeslice_end}
use eyn_os.Sched.Timeslice.Bitmap.{bsr32-highest}
use eyn_os.Sched.Timeslice.Progress.{enter, round_head, run_loop-done}

-- `p` is the highest priority with anything queued.
pub record IsHighest (qs : ℕ → List ℕ) (p : ℕ) : Type 0 where
  pub in_range : p < work_prios
  pub above : (q : ℕ) → p < q → q < work_prios → qs q ≡ []

pub bsr32-IsHighest :
    (s : Sched) (qs : ℕ → List ℕ) (p i : ℕ) (xs : List ℕ)
    → Linked s qs
    → IsHighest qs p
    → qs p ≡ i ∷ xs
    → bsr32 s.ready_bitmap ≡ some p
bsr32-IsHighest s qs p i xs l h e =
    bsr32-highest s.ready_bitmap p h.in_range (l.ready p h.in_range ∙ ap is_cons e)
      (λ q a b. l.ready q b ∙ ap is_cons (h.above q a b))

module _ (call : ℕ → ℕ → Sched → Sched) where
  -- If no call is under way and the first item of the highest queue that holds anything, once the boost is done, has a work
  -- function, a budget and leave to run here, then the function takes it off its queue and runs it.
  pub on_timeslice_end-runs_first :
      (s : Sched) (qs : ℕ → List ℕ) (p i : ℕ) (xs : List ℕ) (f : ℕ)
      → s.work_inflight ≡ false
      → Linked (boost_if_due (enter s)) qs
      → IsHighest qs p
      → qs p ≡ i ∷ xs
      → is_idle ((remove_head p i (boost_if_due (enter s))).work i) ≡ false
      → is_foreign ((remove_head p i (boost_if_due (enter s))).work i) ≡ false
      → on_timeslice_end call (suc f) s
        ≡ some (
          true,
          record (execute call i (dequeue_prio p (boost_if_due (enter s))).1) {
            work_inflight = false;
          },
        )
  unfolding on_timeslice_end
  on_timeslice_end-runs_first s qs p i xs f e l h q busy near =
      let t = boost_if_due (enter s) in
      let first = head_of_list p t h.in_range qs l (i ∷ xs) q in
      let run = run_loop-done call f t.ready_bitmap t true (execute call i (remove_head p i t)) (
        round_head call t.ready_bitmap p i t h.in_range (bsr32-IsHighest t qs p i xs l h q) first
        ∙ rw (busy, near)) in
      rw (e, on_timeslice_end) (rw (run, dequeue_prio-some p t h.in_range i first))
