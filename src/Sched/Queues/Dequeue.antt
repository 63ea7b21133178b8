-- ===== src/Sched/Queues/Dequeue.antt =====
-- `sched_work_dequeue_prio` of src/cpu/sched.c, seen as lists.
use eyn_os.Base.{
  ℕ, ◌<◌, ◌≡◌, subst, none, some, inl, inr, ◌≢◌, List, [], ◌∷◌, arith, ◌==◌, update, Bool-cases,
  ==_iff, lt→not-leb, List-cases,
}
use eyn_os.Sched.{Sched, work_prios, dequeue_prio, remove_head}
use eyn_os.Sched.Queues.{Linked, Placed, Complete}
use eyn_os.Sched.Queues.Frame.{Linked-ext, Placed-ext}
use mathlib.Core.List.{head?, tail}
use eyn_os.Sched.Queues.Links.{Chain}
use eyn_os.Sched.Queues.RemoveHead.{in_queue-remove_head, remove_head-Linked}

-- The lists after `sched_work_dequeue_prio`.
abbrev pub dequeued : ℕ → (ℕ → List ℕ) → ℕ → List ℕ
dequeued p qs = update qs p (tail (qs p))

dequeued-nil : (p : ℕ) (qs : ℕ → List ℕ) → qs p ≡ [] → (q : ℕ) → qs q ≡ dequeued p qs q
dequeued-nil p qs e q = elim (Bool-cases (p == q)) [
  | inl h ↦ rw (h, e) (subst (λ r. qs r ≡ []) ((==_iff p q).0 h) e)
  | inr h ↦ rw h
]

dequeued-cons :
    (p i : ℕ) (xs : List ℕ) (qs : ℕ → List ℕ)
    → qs p ≡ i ∷ xs
    → (q : ℕ) → update qs p xs q ≡ dequeued p qs q
dequeued-cons p i xs qs e q = elim (Bool-cases (p == q)) [ inl h ↦ rw (h, e) | inr h ↦ rw h ]

Placed-rest :
    (p i : ℕ) (xs : List ℕ) (qs : ℕ → List ℕ) (j : ℕ)
    → qs p ≡ i ∷ xs
    → i ≢ j
    → Placed j qs
    → Placed j (update qs p xs)
Placed-rest p i xs qs j e ne (q, m) = (q, ground (arith, e))

module _ (p : ℕ) (s : Sched) (hp : p < work_prios) where
  pub dequeue_prio-none : (s.runq p).head ≡ none → dequeue_prio p s ≡ (none, s)
  unfolding dequeue_prio
  dequeue_prio-none e = simp (lt→not-leb p work_prios hp, e)

  pub dequeue_prio-some :
      (i : ℕ) → (s.runq p).head ≡ some i → dequeue_prio p s ≡ (some i, remove_head p i s)
  unfolding dequeue_prio
  dequeue_prio-some i e = simp (lt→not-leb p work_prios hp, e)

  module _ (qs : ℕ → List ℕ) (l : Linked s qs) where
    pub head_of_list : (xs : List ℕ) → qs p ≡ xs → (s.runq p).head ≡ head? xs
    head_of_list [] e = subst (Chain s.work (s.runq p).head) e (l.chain p hp)
    head_of_list (x ∷ xs) e = (subst (Chain s.work (s.runq p).head) e (l.chain p hp)).0

    -- `sched_work_dequeue_prio` returns the first item of the list, or none, and leaves the rest.
    pub dequeue_prio-Linked :
        ((dequeue_prio p s).0 ≡ head? (qs p)) × Linked (dequeue_prio p s).1 (dequeued p qs)
    dequeue_prio-Linked = elim (List-cases (qs p)) [
      | inl e ↦
          rw (dequeue_prio-none (head_of_list [] e))
            (rw e, Linked-ext s qs (dequeued p qs) (dequeued-nil p qs e) l)
      | inr (i, xs, e) ↦ rw (dequeue_prio-some i (head_of_list (i ∷ xs) e)) (
        rw e,
        Linked-ext (remove_head p i s) (update qs p xs) (dequeued p qs) (dequeued-cons p i xs qs e)
            (remove_head-Linked p i xs s qs l hp e),
      )
    ]

    -- The item that leaves is no longer marked, and every other stays in its list.
    pub dequeue_prio-Complete : Complete s qs → Complete (dequeue_prio p s).1 (dequeued p qs)
    dequeue_prio-Complete c j hj = elim (List-cases (qs p)) [
      | inl e ↦
          rw (dequeue_prio-none (head_of_list [] e))
            (λ m. Placed-ext j qs (dequeued p qs) (dequeued-nil p qs e) (c j hj m))
      | inr (i, xs, e) ↦ rw (dequeue_prio-some i (head_of_list (i ∷ xs) e)) λ m.
          Placed-ext j (update qs p xs) (dequeued p qs) (dequeued-cons p i xs qs e) (
            Placed-rest p i xs qs j e (ground (arith, in_queue-remove_head p i s j))
              (c j hj (ground (arith, in_queue-remove_head p i s j))))
    ]

-- `sched_work_dequeue_prio` returns the first item of the list of a priority, or none if it is empty,
-- and takes it off; every other item stays queued where it was.
pub dequeue_prio_refines :
    (p : ℕ) (s : Sched) (qs : ℕ → List ℕ)
    → p < work_prios
    → Linked s qs
    → Complete s qs
    → ((dequeue_prio p s).0 ≡ head? (qs p))
      × Linked (dequeue_prio p s).1 (dequeued p qs)
      × Complete (dequeue_prio p s).1 (dequeued p qs)
dequeue_prio_refines p s qs hp l c =
    let (first, rest) = dequeue_prio-Linked p s hp qs l in
    (first, rest, dequeue_prio-Complete p s hp qs l c)
