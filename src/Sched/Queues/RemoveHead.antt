-- ===== src/Sched/Queues/RemoveHead.antt =====
-- The body of `sched_work_dequeue_prio` in src/cpu/sched.c, seen as lists.
use eyn_os.Base.{
  ℕ, ◌^◌, ◌<◌, ◌≡◌, ◌∙◌, ap, subst, true, false, inl, inr, ◌≢◌, List, ◌∷◌, ◌&&◌, not, arith, ◌==◌,
  if◌then◌else◌, contains, Distinct, last?, is_cons, update, Bool-cases, Option-cases, ==_refl,
  ==_iff, List-cases,
}
use eyn_os.Base.Bits.{
  test_bit, test_bit-and, test_bit-complement, test_bit-pow, bit_and-lt, complement, pow-lt,
}
use eyn_os.Sched.{Sched, work_prios, remove_head, clear_bit}
use eyn_os.Sched.Queues.{Linked}
use eyn_os.Sched.Queues.Links.{Chain, Chain-frame, Chain-head}

pub test_bit-clear :
    (m p q : ℕ) → p < 32 → q < 32 → test_bit (clear_bit m p) q ≡ (test_bit m q && not (p == q))
test_bit-clear m p q hp hq =
    test_bit-and m (complement 32 (2 ^ p)) q
    ∙ ap (λ b. test_bit m q && b)
        (test_bit-complement 32 (2 ^ p) q (pow-lt p 32 hp) hq ∙ ap not (test_bit-pow p q))

module _ (p i : ℕ) (s : Sched) where
  pub next-remove_head : (j : ℕ) → i ≢ j → ((remove_head p i s).work j).next ≡ (s.work j).next
  unfolding remove_head
  next-remove_head j ne = ground arith

  pub in_queue-remove_head :
      (j : ℕ)
      → ((remove_head p i s).work j).in_queue ≡ (if i == j then false else (s.work j).in_queue)
  unfolding remove_head
  in_queue-remove_head j = ground arith

  head-remove_head : ((remove_head p i s).runq p).head ≡ (s.work i).next
  unfolding remove_head
  head-remove_head = ground arith

  runq_other : (q : ℕ) → p ≢ q → (remove_head p i s).runq q ≡ s.runq q
  unfolding remove_head
  runq_other q ne = ground arith

module _ (p i : ℕ) (xs : List ℕ) (s : Sched) (qs : ℕ → List ℕ) (l : Linked s qs)
    (hp : p < work_prios) (e : qs p ≡ i ∷ xs) where
  whole : Chain s.work (s.runq p).head (i ∷ xs)
  whole = subst (Chain s.work (s.runq p).head) e (l.chain p hp)

  once : (contains xs i ≡ false) × Distinct xs
  once = subst Distinct e (l.distinct p)

  mine : contains (qs p) i ≡ true
  mine = rw e (ground (arith, ==_refl i))

  rest_mem : (q j : ℕ) → contains (update qs p xs q) j ≡ true → (contains (qs q) j ≡ true) × (i ≢ j)
  rest_mem q j m = elim (Bool-cases (p == q)) [
    | inl h ↦ ground (arith, e, once)
    | inr h ↦ (ground arith, λ same. ground (arith, l.apart p q i mine))
  ]

  Chain-other :
      (q : ℕ)
      → p ≢ q
      → q < work_prios
      → Chain (remove_head p i s).work ((remove_head p i s).runq q).head (qs q)
  Chain-other q ne hq = rw (runq_other p i s q ne) (
      Chain-frame s.work (remove_head p i s).work (s.runq q).head (qs q)
        (λ j m.
          next-remove_head p i s j
            (λ h. ne (l.apart p q j (subst (λ k. contains (qs p) k ≡ true) h mine) m)))
        (l.chain q hq))

  Chain-self : Chain (remove_head p i s).work ((remove_head p i s).runq p).head xs
  Chain-self = rw (head-remove_head p i s) (
      Chain-frame s.work (remove_head p i s).work (s.work i).next xs
        (λ j m. next-remove_head p i s j (λ h. ground (arith, once))) whole.1)

  Chain-rest :
      (q : ℕ)
      → q < work_prios
      → Chain (remove_head p i s).work ((remove_head p i s).runq q).head (update qs p xs q)
  Chain-rest q hq = elim (Bool-cases (p == q)) [
    | inl h ↦ rw h (
        subst (λ r. Chain (remove_head p i s).work ((remove_head p i s).runq r).head xs)
          ((==_iff p q).0 h) Chain-self)
    | inr h ↦ rw h (Chain-other q (λ g. ground arith) hq)
  ]

  tail_rest :
      (q : ℕ) → q < work_prios → ((remove_head p i s).runq q).tail ≡ last? (update qs p xs q)
  unfolding remove_head
  tail_rest q hq = elim (List-cases xs) [
    | inl h ↦ ground (arith, l.tail q hq, Chain-head s.work (s.work i).next xs whole.1)
    | inr (y, ys, h) ↦
        ground (arith, l.tail q hq, l.tail p hp, e, Chain-head s.work (s.work i).next xs whole.1)
  ]

  Distinct-rest : (q : ℕ) → Distinct (update qs p xs q)
  Distinct-rest q = elim (Bool-cases (p == q)) [ inl h ↦ rw h once.1 | inr h ↦ rw h (l.distinct q) ]

  ready_rest :
      (q : ℕ)
      → q < work_prios
      → test_bit (remove_head p i s).ready_bitmap q ≡ is_cons (update qs p xs q)
  unfolding remove_head
  ready_rest q hq = ground (
    arith,
    e,
    Chain-head s.work (s.work i).next xs whole.1,
    l.ready q hq,
    l.ready p hp,
    test_bit-clear s.ready_bitmap p q hp hq,
  )

  word_rest : (remove_head p i s).ready_bitmap < 2 ^ 32
  unfolding remove_head
  word_rest = elim (Option-cases (s.work i).next) [
    | inl h ↦ rw h (bit_and-lt 32 s.ready_bitmap (complement 32 (2 ^ p)) l.word)
    | inr (n, h) ↦ rw h l.word
  ]

  pub remove_head-Linked : Linked (remove_head p i s) (update qs p xs)
  remove_head-Linked = record {
    chain = Chain-rest;
    tail = tail_rest;
    distinct = Distinct-rest;
    inside = λ q j m. l.inside q j (rest_mem q j m).0;
    queued = λ q j m. ground (arith, in_queue-remove_head p i s j, rest_mem q j m, l.queued q j);
    apart = λ q r j m n. l.apart q r j (rest_mem q j m).0 (rest_mem r j n).0;
    ready = ready_rest;
    word = word_rest;
  }
