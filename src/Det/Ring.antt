-- ===== src/Det/Ring.antt =====
-- Which events the ring of src/cpu/sched.c holds, and what queueing an interrupt adds.
use eyn_os.Base.{
  ℕ, ◌+◌, ◌%◌, ◌^◌, ◌<◌, ◌≤◌, ◌≡◌, ◌∙◌, refl, ap, true, false, List, [], ◌∷◌, ◌++◌, length,
  length-append, inl, inr, ltb, ◌==◌, if◌then◌else◌, arith, update, update_self, update_ne,
  Bool-cases,
}
use eyn_os.Base.Bits.{bit_and_byte}
use eyn_os.Det.{Machine, Event, queue_cap, event_irq, next_slot, queue_irq, queued}

-- The events `es` stand in the ring from slot `k` on.
abbrev pub Stand : (ℕ → Event) → ℕ → List ℕ → Type 0
Stand q k [] = Unit {0}
Stand q k (e ∷ es) = (q k ≡ record { type = event_irq; irq = e }) × Stand q ((k + 1) % queue_cap) es

-- The ring holds the interrupts `es`, oldest first. One slot stays free.
pub record Ring {V : Type 0} (s : Machine V) (es : List ℕ) : Type 0 where
  pub head : s.head < queue_cap
  pub tail : s.tail ≡ (s.head + length es) % queue_cap
  pub room : length es < queue_cap
  pub stand : Stand s.queue s.head es

-- The slot behind the occupied ones may change.
Stand-update :
    (q : ℕ → Event) (k t : ℕ) (es : List ℕ) (v : Event)
    → k < queue_cap
    → t ≡ (k + length es) % queue_cap
    → length es < queue_cap
    → Stand q k es
    → Stand (update q t v) k es
Stand-update q k t [] v hk e h st = tt
Stand-update q k t (x ∷ es) v hk e h (here, more) = (
  update_ne q t k v (λ c. omega arith) ∙ here,
  Stand-update q ((k + 1) % queue_cap) t es v (omega arith) (omega arith) (omega arith) more,
)

-- An event behind the last is one more.
Stand-snoc :
    (q : ℕ → Event) (k t : ℕ) (es : List ℕ) (x : ℕ)
    → k < queue_cap
    → t ≡ (k + length es) % queue_cap
    → q t ≡ record { type = event_irq; irq = x }
    → Stand q k es
    → Stand q k (es ++ x ∷ [])
Stand-snoc q k t [] x hk e h st = let same : t ≡ k = omega arith in (rw (← same) h, tt)
Stand-snoc q k t (y ∷ es) x hk e h (here, more) =
    (here, Stand-snoc q ((k + 1) % queue_cap) t es x (omega arith) (omega arith) h more)

module _ {V : Type 0} (irq : ℕ) (s : Machine V) (es : List ℕ) (hi : irq < 256) (r : Ring s es) where
  queue_irq_free : s.is_enabled ≡ true → length es < 255 → queue_irq irq s ≡ (true, queued irq s)
  unfolding queue_irq
  queue_irq_free on free =
      let apart : (next_slot s.tail == s.head) ≡ false =
        ground (arith, bit_and_byte (s.tail + 1), r.tail, r.head) in
      simp (on, apart) refl

  queue_irq_full : s.is_enabled ≡ true → 255 ≤ length es → queue_irq irq s ≡ (false, s)
  unfolding queue_irq
  queue_irq_full on full =
      let wraps : (next_slot s.tail == s.head) ≡ true =
        ground (arith, bit_and_byte (s.tail + 1), r.tail, r.head, r.room) in
      simp (on, wraps) refl

  queued-Ring : length es < 255 → Ring (queued irq s) (es ++ irq ∷ [])
  queued-Ring free =
      let event : Event = record { type = event_irq; irq = irq % 2 ^ 8 } in
      let byte : irq % 2 ^ 8 ≡ irq = omega arith in
      record {
        head = r.head;
        tail = omega (arith, bit_and_byte (s.tail + 1), r.tail, length-append es (irq ∷ []));
        room = omega (arith, length-append es (irq ∷ []));
        stand =
            Stand-snoc (update s.queue s.tail event) s.head s.tail es irq r.head r.tail
              (update_self s.queue s.tail event
                ∙ ap (λ (b : ℕ). record { type = event_irq; irq = b }) byte)
              (Stand-update s.queue s.head s.tail es event r.head r.tail r.room r.stand);
      }

-- While the queue is enabled, an interrupt is put behind the others if fewer than 255 wait, and is
-- dropped if 255 do.
pub queue_irq_refines :
    {V : Type 0} (irq : ℕ) (s : Machine V) (es : List ℕ)
    → irq < 256
    → s.is_enabled ≡ true
    → Ring s es
    → ((queue_irq irq s).0 ≡ ltb (length es) 255)
      × Ring (queue_irq irq s).1 (if ltb (length es) 255 then es ++ irq ∷ [] else es)
queue_irq_refines irq s es hi on r = elim (Bool-cases (ltb (length es) 255)) [
  | inl free ↦
      let room : length es < 255 = ground arith in
      rw (free, queue_irq_free irq s es hi r on room) (refl, queued-Ring irq s es hi r room)
  | inr full ↦ rw (full, queue_irq_full irq s es hi r on (ground arith)) (refl, r)
]
