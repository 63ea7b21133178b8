-- ===== src/Sched/Queues/Append.antt =====
-- The body of `sched_work_enqueue` in src/cpu/sched.c, seen as lists.
use eyn_os.Base.{
  ℕ, ◌^◌, ◌<◌, ◌≡◌, sym, ap, ◌≢◌, inl, inr, true, false, ◌&&◌, ◌||◌, ◌∙◌, none, some, List, [], ◌∷◌,
  ◌++◌, arith, ◌==◌, if◌then◌else◌, update, contains, contains-append, contains-last?, Distinct,
  Distinct-snoc, last?, last?-snoc, last?-cons, ==_iff, is_cons, is_cons-snoc, subst, List-cases,
  Option-cases, Bool-cases,
}
use eyn_os.Base.Bits.{test_bit, test_bit-or, test_bit-pow, bit_or-lt, pow-lt}
use eyn_os.Sched.{Sched, work_max, work_prios, append_work}
use eyn_os.Sched.Queues.{Linked, Placed}
use eyn_os.Sched.Queues.Links.{Chain, Chain-frame, Chain-head, Chain-link}

module _ (p i : ℕ) (s : Sched) where
  next_self : (s.runq p).tail ≢ some i → ((append_work p i s).work i).next ≡ none
  unfolding append_work
  next_self ne = ground arith

  next_tail : (t : ℕ) → (s.runq p).tail ≡ some t → ((append_work p i s).work t).next ≡ some i
  unfolding append_work
  next_tail t e = ground arith

  next_other :
      (j : ℕ)
      → i ≢ j
      → (s.runq p).tail ≢ some j
      → ((append_work p i s).work j).next ≡ (s.work j).next
  unfolding append_work
  next_other j ne nt = ground arith

  pub in_queue-append :
      (j : ℕ)
      → ((append_work p i s).work j).in_queue ≡ (if i == j then true else (s.work j).in_queue)
  unfolding append_work
  in_queue-append j = ground arith

  head_empty : (s.runq p).tail ≡ none → ((append_work p i s).runq p).head ≡ some i
  unfolding append_work
  head_empty e = ground arith

  head_cons :
      (t : ℕ) → (s.runq p).tail ≡ some t → ((append_work p i s).runq p).head ≡ (s.runq p).head
  unfolding append_work
  head_cons t e = ground arith

  runq_other : (q : ℕ) → p ≢ q → (append_work p i s).runq q ≡ s.runq q
  unfolding append_work
  runq_other q ne = ground arith

-- The lists after an append to queue `p`.
abbrev pub push_back : ℕ → ℕ → (ℕ → List ℕ) → ℕ → List ℕ
push_back p i qs = update qs p (qs p ++ i ∷ [])

pub contains-push_back :
    (p i : ℕ) (qs : ℕ → List ℕ) (q j : ℕ)
    → contains (push_back p i qs q) j ≡ (contains (qs q) j || ((p == q) && (i == j)))
contains-push_back p i qs q j = ground (arith, contains-append (qs p) (i ∷ []) j)

pub Placed-push_back :
    (p i : ℕ) (qs : ℕ → List ℕ) (j : ℕ) → Placed j qs → Placed j (push_back p i qs)
Placed-push_back p i qs j (q, m) = (q, ground (arith, contains-push_back p i qs q j))

pub Placed-push_back_self :
    (p i : ℕ) (qs : ℕ → List ℕ) (j : ℕ) → (i == j) ≡ true → Placed j (push_back p i qs)
Placed-push_back_self p i qs j e = (p, ground (arith, contains-push_back p i qs p j))

module _ (p i : ℕ) (s : Sched) (qs : ℕ → List ℕ) (l : Linked s qs) (hp : p < work_prios)
    (hi : i < work_max) (fresh : (q : ℕ) → contains (qs q) i ≡ false) where
  tail_mem : (t : ℕ) → (s.runq p).tail ≡ some t → contains (qs p) t ≡ true
  tail_mem t e = contains-last? (qs p) t (sym (l.tail p hp) ∙ e)

  tail_ne : (s.runq p).tail ≢ some i
  tail_ne e = ground (arith, tail_mem i e, fresh p)

  Chain-other :
      (q : ℕ)
      → p ≢ q
      → q < work_prios
      → Chain (append_work p i s).work ((append_work p i s).runq q).head (qs q)
  Chain-other q ne hq = rw (runq_other p i s q ne) (
      Chain-frame s.work (append_work p i s).work (s.runq q).head (qs q)
        (λ j m.
          next_other p i s j (λ e. ground (arith, fresh q))
            (λ e. ne (l.apart p q j (tail_mem j e) m)))
        (l.chain q hq))

  Chain-empty :
      qs p ≡ [] → Chain (append_work p i s).work ((append_work p i s).runq p).head (i ∷ [])
  Chain-empty e =
      let tail : (s.runq p).tail ≡ none = l.tail p hp ∙ ap last? e in
      (head_empty p i s tail, next_self p i s tail_ne)

  Chain-cons :
      (x : ℕ) (xs : List ℕ)
      → qs p ≡ x ∷ xs
      → Chain (append_work p i s).work ((append_work p i s).runq p).head (x ∷ (xs ++ i ∷ []))
  Chain-cons x xs e =
      let (t, lt) = last?-cons x xs in
      let tail : (s.runq p).tail ≡ some t = l.tail p hp ∙ ap last? e ∙ lt in
      rw (head_cons p i s t tail) (
        Chain-link s.work (append_work p i s).work (s.runq p).head x xs t i lt
          (subst Distinct e (l.distinct p))
          (λ j m ne. next_other p i s j (λ h. ground (arith, fresh p, e)) (λ h. ne (ground arith)))
          (next_tail p i s t tail) (next_self p i s tail_ne)
          (subst (Chain s.work (s.runq p).head) e (l.chain p hp)))

  Chain-self : Chain (append_work p i s).work ((append_work p i s).runq p).head (qs p ++ i ∷ [])
  Chain-self = elim (List-cases (qs p)) [
    | inl e ↦ rw e (Chain-empty e)
    | inr (x, xs, e) ↦ rw e (Chain-cons x xs e)
  ]

  tail_append :
      (q : ℕ) → q < work_prios → ((append_work p i s).runq q).tail ≡ last? (push_back p i qs q)
  unfolding append_work
  tail_append q hq = ground (arith, l.tail q hq, last?-snoc (qs p) i)

  Distinct-append : (q : ℕ) → Distinct (push_back p i qs q)
  Distinct-append q = elim (Bool-cases (p == q)) [
    | inl e ↦ rw e (Distinct-snoc (qs p) i (l.distinct p) (fresh p))
    | inr e ↦ rw e (l.distinct q)
  ]

  inside_append :
      (q j : ℕ) → contains (push_back p i qs q) j ≡ true → (q < work_prios) × (j < work_max)
  inside_append q j m = ground (arith, contains-push_back p i qs q j, l.inside q j)

  queued_append :
      (q j : ℕ)
      → contains (push_back p i qs q) j ≡ true
      → ((append_work p i s).work j).in_queue ≡ true
  queued_append q j m =
      ground (arith, contains-push_back p i qs q j, l.queued q j, in_queue-append p i s j)

  apart_append :
      (q r j : ℕ)
      → contains (push_back p i qs q) j ≡ true
      → contains (push_back p i qs r) j ≡ true
      → q ≡ r
  apart_append q r j m n = ground (
    arith,
    contains-push_back p i qs q j,
    contains-push_back p i qs r j,
    l.apart q r j,
    fresh q,
    fresh r,
  )

  Chain-append :
      (q : ℕ)
      → q < work_prios
      → Chain (append_work p i s).work ((append_work p i s).runq q).head (push_back p i qs q)
  Chain-append q hq = elim (Bool-cases (p == q)) [
    | inl e ↦ rw e (
        subst
          (λ r. Chain (append_work p i s).work ((append_work p i s).runq r).head (qs p ++ i ∷ []))
          ((==_iff p q).0 e) Chain-self)
    | inr e ↦ rw e (Chain-other q (λ h. ground arith) hq)
  ]

  ready_append :
      (q : ℕ)
      → q < work_prios
      → test_bit (append_work p i s).ready_bitmap q ≡ is_cons (push_back p i qs q)
  unfolding append_work
  ready_append q hq = ground (
    arith,
    Chain-head s.work (s.runq p).head (qs p) (l.chain p hp),
    is_cons-snoc (qs p) i,
    l.ready q hq,
    l.ready p hp,
    test_bit-or s.ready_bitmap (2 ^ p) q,
    test_bit-pow p q,
  )

  word_append : (append_work p i s).ready_bitmap < 2 ^ 32
  unfolding append_work
  word_append = elim (Option-cases (s.runq p).head) [
    | inl e ↦ rw e (bit_or-lt 32 s.ready_bitmap (2 ^ p) l.word (pow-lt p 32 hp))
    | inr (h, e) ↦ rw e l.word
  ]

  pub append_work-Linked : Linked (append_work p i s) (push_back p i qs)
  append_work-Linked = record {
    chain = Chain-append;
    tail = tail_append;
    distinct = Distinct-append;
    inside = inside_append;
    queued = queued_append;
    apart = apart_append;
    ready = ready_append;
    word = word_append;
  }
