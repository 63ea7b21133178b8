-- ===== src/Tests/DetTests.antt =====
-- The event queue of src/cpu/sched.c about to wrap around.
use eyn_os.Base.{ℕ, ◌≡◌, refl, true, false, List, [], ◌∷◌, if◌then◌else◌, ◌==◌, arith}
use eyn_os.Det.{Machine, Hooks, queue_irq, det_step}
use eyn_os.Det.Ring.{Ring, queue_irq_refines}
use eyn_os.Det.Step.{Quiet, handled, busy, det_step_refines}

-- Interrupts 1 and 0 wait, in the last slot and the first; `outside` logs what is dispatched.
abbrev machine : Machine (List ℕ)
machine = record {
  ticks = 7;
  current_slice = 3;
  timeslice_ticks = 100;
  queue = λ k. record { type = 1; irq = if k == 255 then 1 else 0 };
  head = 255;
  tail = 1;
  is_enabled = true;
  is_processing = false;
  outside = [];
}

abbrev hooks : Hooks (List ℕ)
hooks = record {
  on_tick = λ s. s;
  on_slice_end = λ s. s;
  dispatch = λ irq s. record s { outside = irq ∷ s.outside };
}

hooks-Quiet : Quiet hooks
hooks-Quiet = record {
  on_tick = λ s. record { queue = refl; head = refl; tail = refl };
  on_slice_end = λ s. record { queue = refl; head = refl; tail = refl };
  dispatch = λ irq s. record { queue = refl; head = refl; tail = refl };
}

machine-Ring : Ring machine (1 ∷ 0 ∷ [])
machine-Ring = record {
  head = omega arith;
  tail = refl;
  room = omega arith;
  stand = (refl, (refl, tt));
}

queue_irq_refines_example :
    ((queue_irq 12 machine).0 ≡ true) × Ring (queue_irq 12 machine).1 (1 ∷ 0 ∷ 12 ∷ [])
queue_irq_refines_example =
    queue_irq_refines 12 machine (1 ∷ 0 ∷ []) (omega arith) refl machine-Ring

det_step_refines_example :
    (det_step hooks 1 machine
      ≡ (1, record (handled hooks (1 ∷ []) (busy machine)) { is_processing = false }))
    × Ring (det_step hooks 1 machine).1 (0 ∷ [])
det_step_refines_example =
    det_step_refines hooks 1 machine (1 ∷ 0 ∷ []) hooks-Quiet refl refl machine-Ring
