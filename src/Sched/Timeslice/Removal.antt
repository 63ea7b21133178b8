-- ===== src/Sched/Timeslice/Removal.antt =====
-- What one round of the loop in src/cpu/sched.c does to the queues: an item leaves, or a bit does.
use eyn_os.Base.{
  ℕ, zero, suc, ◌+◌, ◌^◌, ◌<◌, ◌≤◌, ◌≡◌, ◌≢◌, ◌∙◌, sym, ap, subst, refl, true, false, Option, none,
  some, inl, inr, List, [], ◌∷◌, arith, ◌==◌, ==_iff, if◌then◌else◌, Bool-cases, contains, ==_refl,
}
use mathlib.Core.List.{head?}
use eyn_os.Base.Bits.{bit_and-lt, complement}
use eyn_os.Sched.{Sched, Work, work_max, work_prios, clear_bit, remove_head}
use eyn_os.Sched.Queues.Links.{Chain-head}
use eyn_os.Sched.Queues.RemoveHead.{test_bit-clear}
use eyn_os.Sched.Queues.Dequeue.{dequeue_prio-Linked, dequeue_prio-some}
use eyn_os.Sched.Invariant.{Sound}
use eyn_os.Sched.Invariant.Steps.{dequeue_prio-Sound}
use eyn_os.Sched.Timeslice.{is_foreign}
use eyn_os.Sched.Timeslice.Items.{AllLocal, AllLocal-same, SameItems, dequeue_prio-SameItems}

-- The number of queued items below `n`.
pub queued_count : ℕ → (ℕ → Work) → ℕ
queued_count zero w = 0
queued_count (suc n) w = (if (w n).in_queue then 1 else 0) + queued_count n w

pub queued_count-le : (n : ℕ) (w : ℕ → Work) → queued_count n w ≤ n
unfolding queued_count
queued_count-le zero w = omega arith
queued_count-le (suc n) w = ground (arith, queued_count-le n w)

queued_count-same :
    (n : ℕ) (w v : ℕ → Work)
    → ((j : ℕ) → j < n → (v j).in_queue ≡ (w j).in_queue)
    → queued_count n v ≡ queued_count n w
unfolding queued_count
queued_count-same zero w v h = refl
queued_count-same (suc n) w v h =
    ground (arith, h n, queued_count-same n w v (λ j a. h j (omega arith)))

queued_count-less :
    (n i : ℕ) (w v : ℕ → Work)
    → i < n
    → (w i).in_queue ≡ true
    → ((j : ℕ) → (v j).in_queue ≡ (if i == j then false else (w j).in_queue))
    → queued_count n w ≡ suc (queued_count n v)
unfolding queued_count
queued_count-less zero i w v hi e h = absurd (omega arith)
queued_count-less (suc n) i w v hi e h = elim (Bool-cases (i == n)) [
  | inl same ↦
      let here : (w n).in_queue ≡ true =
        subst (λ j. (w j).in_queue ≡ true) ((==_iff i n).0 same) e in
      ground (arith, h n, queued_count-same n w v (λ j a. ground (arith, h j)))
  | inr other ↦ ground (arith, h n, queued_count-less n i w v (ground arith) e h)
]

in_queue-remove :
    (p i : ℕ) (s : Sched) (j : ℕ)
    → ((remove_head p i s).work j).in_queue ≡ (if i == j then false else (s.work j).in_queue)
unfolding remove_head
in_queue-remove p i s j = ground arith

id-remove : (p i : ℕ) (s : Sched) (j : ℕ) → ((remove_head p i s).work j).id ≡ (s.work j).id
unfolding remove_head
id-remove p i s j = ground arith

module _ (s : Sched) (v : Sound s) (p i : ℕ) (hp : p < work_prios)
    (h : (s.runq p).head ≡ some i) where
  pub listed : contains (v.lists p) i ≡ true
  listed = head_mem (v.lists p) (
      sym (dequeue_prio-Linked p s hp v.lists v.linked).0
      ∙ ap (λ (r : Option ℕ × Sched). r.0) (dequeue_prio-some p s hp i h))
    where
      head_mem : (xs : List ℕ) → head? xs ≡ some i → contains xs i ≡ true
      head_mem [] e = cc
      head_mem (x ∷ xs) e = ground (arith, ==_refl i)

  pub removed_less :
      queued_count work_max s.work ≡ suc (queued_count work_max (remove_head p i s).work)
  removed_less =
      queued_count-less work_max i s.work (remove_head p i s).work (v.linked.inside p i listed).1
        (v.linked.queued p i listed) (in_queue-remove p i s)

  pub removed-Sound : Sound (remove_head p i s)
  removed-Sound =
      subst (λ (r : Option ℕ × Sched). Sound r.1) (dequeue_prio-some p s hp i h)
        (dequeue_prio-Sound p s hp v)

  pub removed-AllLocal : AllLocal s → AllLocal (remove_head p i s)
  removed-AllLocal a =
      AllLocal-same s (remove_head p i s)
        (subst (λ (r : Option ℕ × Sched). SameItems s r.1) (dequeue_prio-some p s hp i h)
          (dequeue_prio-SameItems p s))
        a

  pub removed_registered : (i < work_max) × (((remove_head p i s).work i).id ≢ 0)
  removed_registered =
      let mine = v.linked.inside p i listed in
      (mine.1, λ e. v.named i mine.1 (v.linked.queued p i listed) (sym (id-remove p i s i) ∙ e))

  -- The item that leaves its queue may run here.
  pub removed_local : AllLocal s → is_foreign ((remove_head p i s).work i) ≡ false
  removed_local a = removed-AllLocal a i removed_registered.0 removed_registered.1

abbrev pub drop_bit : ℕ → Sched → Sched
drop_bit p s = record s { ready_bitmap = clear_bit s.ready_bitmap p }

pub drop_bit-Sound :
    (p : ℕ) (s : Sched) → p < work_prios → (s.runq p).head ≡ none → Sound s → Sound (drop_bit p s)
drop_bit-Sound p s hp h v = record {
  lists = v.lists;
  linked = record {
    chain = v.linked.chain;
    tail = v.linked.tail;
    distinct = v.linked.distinct;
    inside = v.linked.inside;
    queued = v.linked.queued;
    apart = v.linked.apart;
    ready = λ q hq. ground (
      arith,
      test_bit-clear s.ready_bitmap p q hp hq,
      v.linked.ready q hq,
      v.linked.ready p hp,
      Chain-head s.work (s.runq p).head (v.lists p) (v.linked.chain p hp),
    );
    word = bit_and-lt 32 s.ready_bitmap (complement 32 (2 ^ p)) v.linked.word;
  };
  complete = v.complete;
  named = v.named;
}
