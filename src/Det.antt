-- ===== src/Det.antt =====
-- The clock of src/cpu/sched.c and its deterministic event queue: while it is enabled, interrupts are
-- put into a ring of 256 events and handled when `sched_det_step` is called.
-- `V` is the state of the rest of the kernel, and the hooks are the code that a tick or an event calls:
-- `on_tick` watchdog_on_tick and user_task_scheduler_tick, `on_slice_end` sched_on_timeslice_end,
-- `dispatch` irq_dispatch_deferred.
pub mod Ring
pub mod Step
use eyn_os.Base.{
  ℕ, zero, suc, ◌+◌, ◌-◌, ◌%◌, ◌^◌, Bool, true, false, not, leb, bit_and, ◌==◌, if◌then◌else◌,
  update,
}

abbrev pub queue_cap : ℕ
queue_cap = 256

abbrev pub event_irq : ℕ
event_irq = 1

-- `det_event_t`.
pub record Event : Type 0 where
  pub type : ℕ
  pub irq : ℕ

-- The static variables of the clock and of the queue, and the rest of the kernel.
pub record Machine (V : Type 0) : Type 0 where
  pub ticks : ℕ
  pub current_slice : ℕ
  pub timeslice_ticks : ℕ
  pub queue : ℕ → Event
  pub head : ℕ
  pub tail : ℕ
  pub is_enabled : Bool
  pub is_processing : Bool
  pub outside : V

-- The hooks.
pub record Hooks (V : Type 0) : Type 0 where
  pub on_tick : Machine V → Machine V
  pub on_slice_end : Machine V → Machine V
  pub dispatch : ℕ → Machine V → Machine V

-- `(k + 1) & (DET_QUEUE_CAP - 1)`.
abbrev pub next_slot : ℕ → ℕ
next_slot k = bit_and (k + 1) (queue_cap - 1)

-- How many events `sched_det_step` may process.
abbrev pub asked : ℕ → ℕ
asked max_events = if max_events == 0 then 1 else max_events

module _ {V : Type 0} where
  unfoldable pub enable : Bool → Machine V → Machine V
  enable true s = record s { is_enabled = true; head = 0; tail = 0 }
  enable false s = record s { is_enabled = false }

  abbrev pub queued : ℕ → Machine V → Machine V
  queued irq s = record s {
    queue = update s.queue s.tail (record { type = event_irq; irq = irq % 2 ^ 8 });
    tail = next_slot s.tail;
  }

  -- Whether the event was queued: true for 0, false for -1.
  unfoldable pub queue_irq : ℕ → Machine V → Bool × Machine V
  queue_irq irq s =
      if not s.is_enabled
      then (false, s)
      else if next_slot s.tail == s.head
      then (false, s)
      else (true, queued irq s)

  abbrev pub end_slice : Hooks V → Machine V → Machine V
  end_slice h s =
      if leb s.timeslice_ticks s.current_slice
      then h.on_slice_end (record s { current_slice = 0 })
      else s

  unfoldable pub tick_det : Hooks V → Machine V → Machine V
  tick_det h s =
      let s1 = h.on_tick (record s { ticks = (s.ticks + 1) % 2 ^ 32 }) in
      end_slice h (record s1 { current_slice = (s1.current_slice + 1) % 2 ^ 32 })

  unfoldable pub tick : Hooks V → Machine V → Machine V
  unfolding tick_det queue_irq
  tick h s = if s.is_enabled then (queue_irq 0 s).1 else tick_det h s

  unfoldable pub set_timeslice_ticks : ℕ → Machine V → Machine V
  set_timeslice_ticks ticks s =
      let t = if ticks == 0 then 1 else ticks in
      record s {
        timeslice_ticks = t;
        current_slice = if leb t s.current_slice then 0 else s.current_slice;
      }

  -- What is done with an interrupt that comes out of the queue.
  unfoldable pub handle : Hooks V → ℕ → Machine V → Machine V
  unfolding tick_det
  handle h irq s = if irq == 0 then tick_det h s else h.dispatch irq s

  abbrev pub pop : Machine V → Machine V
  pop s = record s { head = next_slot s.head }

  abbrev pub process : Hooks V → Event → Machine V → Machine V
  process h e s = if e.type == event_irq then handle h e.irq s else s

  -- The loop for at most `n` more events, with the number processed.
  unfoldable pub step_loop : Hooks V → ℕ → Machine V → ℕ × Machine V
  step_loop h zero s = (0, s)
  step_loop h (suc n) s =
      let (count, t) = step_loop h n (process h (s.queue s.head) (pop s)) in
      if s.head == s.tail then (0, s) else (count + 1, t)

  abbrev pub leave : ℕ × Machine V → ℕ × Machine V
  leave (count, s) = (count, record s { is_processing = false })

  unfoldable pub det_step : Hooks V → ℕ → Machine V → ℕ × Machine V
  unfolding step_loop
  det_step h max_events s =
      if not s.is_enabled
      then (0, s)
      else if s.is_processing
      then (0, s)
      else leave (step_loop h (asked max_events) (record s { is_processing = true }))
