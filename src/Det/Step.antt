-- ===== src/Det/Step.antt =====
-- `sched_det_step` of src/cpu/sched.c handles the queued interrupts in order.
use eyn_os.Base.{
  ℕ, zero, suc, ◌+◌, ◌%◌, ◌^◌, ◌≡◌, ◌∙◌, refl, ap, true, false, List, [], ◌∷◌, min, length-take,
  length, inl, inr, leb, ◌==◌, arith, Bool-cases, take,
}
use eyn_os.Base.Bits.{bit_and_byte}
use eyn_os.Det.{
  Machine, Event, Hooks, handle, pop, process, step_loop, det_step, leave, asked, tick_det,
}
use eyn_os.Det.Ring.{Ring}

-- `t` has the queue of `s`.
pub record SameQueue {V : Type 0} (s t : Machine V) : Type 0 where
  pub queue : t.queue ≡ s.queue
  pub head : t.head ≡ s.head
  pub tail : t.tail ≡ s.tail

-- The hooks leave the queue alone.
pub record Quiet {V : Type 0} (h : Hooks V) : Type 0 where
  pub on_tick : (s : Machine V) → SameQueue s (h.on_tick s)
  pub on_slice_end : (s : Machine V) → SameQueue s (h.on_slice_end s)
  pub dispatch : (irq : ℕ) (s : Machine V) → SameQueue s (h.dispatch irq s)

-- Each interrupt is taken off the queue and then handled.
unfoldable pub handled : {V : Type 0} → Hooks V → List ℕ → Machine V → Machine V
handled h [] s = s
handled h (e ∷ es) s = handled h es (handle h e (pop s))

-- Some interrupts without the first `n`.
abbrev pub later : ℕ → List ℕ → List ℕ
later zero es = es
later (suc n) [] = []
later (suc n) (e ∷ es) = later n es

module _ {V : Type 0} (h : Hooks V) (quiet : Quiet h) where
  tick_det-SameQueue : (s : Machine V) → SameQueue s (tick_det h s)
  unfolding tick_det
  tick_det-SameQueue s =
      let counted = record s { ticks = (s.ticks + 1) % 2 ^ 32 } in
      let a = quiet.on_tick counted in
      let s1 = h.on_tick counted in
      let s2 = record s1 { current_slice = (s1.current_slice + 1) % 2 ^ 32 } in
      let s3 = record s2 { current_slice = 0 } in
      let b = quiet.on_slice_end s3 in
      elim (Bool-cases (leb s2.timeslice_ticks s2.current_slice)) [
        | inl e ↦
            rw e
              (record { queue = b.queue ∙ a.queue; head = b.head ∙ a.head; tail = b.tail ∙ a.tail })
        | inr e ↦ rw e (record { queue = a.queue; head = a.head; tail = a.tail })
      ]

  handle-SameQueue : (irq : ℕ) (s : Machine V) → SameQueue s (handle h irq s)
  unfolding handle
  handle-SameQueue irq s = elim (Bool-cases (irq == 0)) [
    | inl e ↦ rw e (tick_det-SameQueue s)
    | inr e ↦ rw e (quiet.dispatch irq s)
  ]

  -- Handling the first interrupt leaves the others.
  handle-Ring :
      (s : Machine V) (e : ℕ) (es : List ℕ) → Ring s (e ∷ es) → Ring (handle h e (pop s)) es
  handle-Ring s e es r =
      let same = handle-SameQueue e (pop s) in
      record {
        head = omega (arith, same.head, bit_and_byte (s.head + 1), r.head);
        tail = omega (arith, same.head, same.tail, bit_and_byte (s.head + 1), r.head, r.tail);
        room = omega (arith, r.room);
        stand = rw (same.queue, same.head, bit_and_byte (s.head + 1)) r.stand.1;
      }

  no_rounds : (s : Machine V) → step_loop h 0 s ≡ (0, s)
  unfolding step_loop
  no_rounds s = refl

  step_loop_done : (n : ℕ) (s : Machine V) → Ring s [] → step_loop h n s ≡ (0, s)
  unfolding step_loop
  step_loop_done zero s r = refl
  step_loop_done (suc n) s r =
      let drained : (s.head == s.tail) ≡ true = ground (arith, r.head, r.tail) in simp drained refl

  -- One round takes the first interrupt off and handles it.
  step_loop_more :
      (n : ℕ) (s : Machine V) (e : ℕ) (es : List ℕ)
      → Ring s (e ∷ es)
      → step_loop h (suc n) s
        ≡ ((step_loop h n (handle h e (pop s))).0 + 1, (step_loop h n (handle h e (pop s))).1)
  unfolding step_loop
  step_loop_more n s e es r =
      let waiting : (s.head == s.tail) ≡ false = ground (arith, r.head, r.tail, r.room) in
      let first = ap (λ (v : Event). process h v (pop s)) r.stand.0 in
      simp waiting (ap (λ (t : Machine V). ((step_loop h n t).0 + 1, (step_loop h n t).1)) first)

  pub step_loop-handled :
      (n : ℕ) (s : Machine V) (es : List ℕ)
      → Ring s es
      → (step_loop h n s ≡ (length (take n es), handled h (take n es) s))
        × Ring (handled h (take n es) s) (later n es)
  unfolding handled
  step_loop-handled zero s es r = (no_rounds s, r)
  step_loop-handled (suc n) s [] r = (step_loop_done (suc n) s r, r)
  step_loop-handled (suc n) s (e ∷ es) r =
      let next = handle h e (pop s) in
      let (run, left) = step_loop-handled n next es (handle-Ring s e es r) in
      (
        step_loop_more n s e es r
            ∙ ap (λ (p : ℕ × Machine V). (p.0 + 1, p.1)) run
            ∙ ap (λ (k : ℕ). (k, handled h (take n es) next)) (omega arith),
        left,
      )

-- The state in which the events are handled.
abbrev pub busy : {V : Type 0} → Machine V → Machine V
busy s = record s { is_processing = true }

det_step_open :
    {V : Type 0} (h : Hooks V) (max_events : ℕ) (s : Machine V)
    → s.is_enabled ≡ true
    → s.is_processing ≡ false
    → det_step h max_events s ≡ leave (step_loop h (asked max_events) (busy s))
unfolding det_step
det_step_open h max_events s on idle = ground arith

-- When the queue is enabled and not being drained, and the hooks leave it alone, then the first
-- interrupts are taken off and handled in the order in which they were queued: as many as asked for,
-- at least one, if that many wait. Their number is returned, and the others stay queued.
pub det_step_refines :
    {V : Type 0} (h : Hooks V) (max_events : ℕ) (s : Machine V) (es : List ℕ)
    → Quiet h
    → s.is_enabled ≡ true
    → s.is_processing ≡ false
    → Ring s es
    → (det_step h max_events s ≡ (
      min (asked max_events) (length es),
      record (handled h (take (asked max_events) es) (busy s)) { is_processing = false },
    ))
      × Ring (det_step h max_events s).1 (later (asked max_events) es)
det_step_refines h max_events s es quiet on idle r =
    let n = asked max_events in
    let (run, left) =
      step_loop-handled h quiet n (busy s) es
        (record { head = r.head; tail = r.tail; room = r.room; stand = r.stand }) in
    let t = handled h (take n es) (busy s) in
    let done : det_step h max_events s ≡ (length (take n es), record t { is_processing = false }) =
      det_step_open h max_events s on idle ∙ ap leave run in
    (
      done ∙ ap (λ (k : ℕ). (k, record t { is_processing = false })) (length-take n es),
      rw done (record { head = left.head; tail = left.tail; room = left.room; stand = left.stand }),
    )
