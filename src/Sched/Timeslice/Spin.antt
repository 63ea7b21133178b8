-- ===== src/Sched/Timeslice/Spin.antt =====
-- Where the loop of `sched_work_on_timeslice_end` in src/cpu/sched.c never ends.
use eyn_os.Base.{
  ℕ, zero, suc, ◌<◌, ◌≡◌, ◌∙◌, refl, sym, ap, subst, true, false, inl, inr, some, none, List, [],
  ◌∷◌, is_cons, is_cons-snoc, List-cases, contains, contains-append, arith, update, ==_refl,
}
use eyn_os.Sched.{Sched, Work, work_prios, bsr32, remove_head, enqueue, append_work, enqueue_prio}
use eyn_os.Sched.Queues.{Linked}
use eyn_os.Sched.Queues.Append.{push_back, append_work-Linked}
use eyn_os.Sched.Queues.Enqueue.{enqueue_fresh, fresh_of_not_queued}
use eyn_os.Sched.Queues.RemoveHead.{in_queue-remove_head, remove_head-Linked}
use eyn_os.Sched.Queues.Dequeue.{head_of_list}
use eyn_os.Sched.Timeslice.Choice.{IsHighest, bsr32-IsHighest}
use eyn_os.Sched.Ops.{boost_if_due}
use eyn_os.Sched.Timeslice.{is_idle, is_foreign, again, round, run_loop, on_timeslice_end}
use eyn_os.Sched.Timeslice.Progress.{enter, round_head, run_loop-again}

-- An item that the loop puts back where it found it: ready, but bound to another processor.
pub record IsStuck (w : Work) (p : ℕ) : Type 0 where
  pub busy : is_idle w ≡ false
  pub foreign : is_foreign w ≡ true
  pub level : enqueue_prio w ≡ p

module _ (p i : ℕ) (s : Sched) (j : ℕ) where
  IsStuck-remove_head : IsStuck (s.work j) p → IsStuck ((remove_head p i s).work j) p
  unfolding remove_head enqueue_prio
  IsStuck-remove_head h = ground arith

  IsStuck-append_work : IsStuck (s.work j) p → IsStuck ((append_work p i s).work j) p
  unfolding append_work enqueue_prio
  IsStuck-append_work h = ground arith

-- The lists after the first item of queue `p` has gone to its end.
abbrev rotated : ℕ → ℕ → List ℕ → (ℕ → List ℕ) → ℕ → List ℕ
rotated p i xs qs = push_back p i (update qs p xs)

rotated-head : (p i : ℕ) (xs : List ℕ) (qs : ℕ → List ℕ) → is_cons (rotated p i xs qs p) ≡ true
rotated-head p i xs qs = ground (arith, is_cons-snoc xs i)

rotated_mem :
    (p i : ℕ) (xs : List ℕ) (qs : ℕ → List ℕ) (j : ℕ)
    → qs p ≡ i ∷ xs
    → contains (rotated p i xs qs p) j ≡ true
    → contains (qs p) j ≡ true
rotated_mem p i xs qs j e m = ground (arith, contains-append xs (i ∷ []) j)

module _ (call : ℕ → ℕ → Sched → Sched) (ready p : ℕ) (hp : p < work_prios)
    (b : bsr32 ready ≡ some p) where
  -- One round takes the first item off and puts it back at the end.
  round-IsStuck :
      (s : Sched) (qs : ℕ → List ℕ) (i : ℕ) (xs : List ℕ)
      → Linked s qs
      → qs p ≡ i ∷ xs
      → IsStuck (s.work i) p
      → (t : Sched) × (round call ready s ≡ again ready t)
        × Linked t (rotated p i xs qs)
        × ((j : ℕ) → IsStuck (s.work j) p → IsStuck (t.work j) p)
  round-IsStuck s qs i xs l e h =
      let s1 = remove_head p i s in
      let first = head_of_list p s hp qs l (i ∷ xs) e in
      let l1 = remove_head-Linked p i xs s qs l hp e in
      let h1 = IsStuck-remove_head p i s i h in
      let mine = subst (λ r. contains r i ≡ true) (sym e) (ground (arith, ==_refl i)) in
      let hi = (l.inside p i mine).1 in
      let gone : (s1.work i).in_queue ≡ false = ground (arith, in_queue-remove_head p i s i) in
      let put : enqueue i s1 ≡ append_work p i s1 =
        enqueue_fresh i s1 hi gone ∙ ap (λ (q : ℕ). append_work q i s1) h1.level in
      (
        append_work p i s1,
        round_head call ready p i s hp b first ∙ rw (h1.busy, h1.foreign, put),
        append_work-Linked p i s1 (update qs p xs) l1 hp hi
            (fresh_of_not_queued i s1 (update qs p xs) l1 gone),
        λ j g. IsStuck-append_work p i s1 j (IsStuck-remove_head p i s j g),
      )

  -- If the highest queue marked in `ready` holds only such items, no fuel is enough.
  pub run_loop-spins :
      (f : ℕ) (s : Sched) (qs : ℕ → List ℕ)
      → Linked s qs
      → is_cons (qs p) ≡ true
      → ((j : ℕ) → contains (qs p) j ≡ true → IsStuck (s.work j) p)
      → run_loop call f ready s ≡ none
  unfolding run_loop
  run_loop-spins zero s qs l c stuck = refl
  run_loop-spins (suc f) s qs l c stuck = elim (List-cases (qs p)) [
    | inl e ↦ ground arith
    | inr (i, xs, e) ↦
        let (t, r, lt, keep) =
          round-IsStuck s qs i xs l e
            (stuck i (subst (λ q. contains q i ≡ true) (sym e) (ground (arith, ==_refl i)))) in
        run_loop-again call f ready s ready t r
        ∙ run_loop-spins f t (rotated p i xs qs) lt (rotated-head p i xs qs)
            (λ j m. keep j (stuck j (rotated_mem p i xs qs j e m)))
  ]

module _ (call : ℕ → ℕ → Sched → Sched) where
  -- If no call is under way, and the highest queue that holds anything, once the boost is done, holds
  -- only items of its level that are ready
  -- but bound to other processors, then the function never returns.
  pub on_timeslice_end-spins :
      (s : Sched) (qs : ℕ → List ℕ) (p i : ℕ) (xs : List ℕ) (f : ℕ)
      → s.work_inflight ≡ false
      → Linked (boost_if_due (enter s)) qs
      → IsHighest qs p
      → qs p ≡ i ∷ xs
      → ((j : ℕ) → contains (qs p) j ≡ true → IsStuck ((boost_if_due (enter s)).work j) p)
      → on_timeslice_end call f s ≡ none
  unfolding on_timeslice_end
  on_timeslice_end-spins s qs p i xs f e l h q stuck =
      let t = boost_if_due (enter s) in
      let spin =
        run_loop-spins call t.ready_bitmap p h.in_range (bsr32-IsHighest t qs p i xs l h q) f t qs l
          (ap is_cons q) stuck in
      rw (e, on_timeslice_end) (rw spin)
