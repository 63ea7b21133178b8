-- ===== src/Sched/History.antt =====
-- Histories of the scheduler of src/cpu/sched.c: any calls of its interface, one after the other.
pub mod Keeps
use mathlib.Core.Option
use eyn_os.Base.{ℕ, ◌≡◌, ◌≢◌, ◌⊎◌, Bool, true, Option, none, some, List, [], ◌∷◌}
use eyn_os.Base.Bits.{test_bit}
use eyn_os.Sched.{Sched}
use eyn_os.Sched.Ops.{Request, register, set_ready, unready, update_budget}
use eyn_os.Sched.Invariant.{Sound}
use eyn_os.Sched.Timeslice.{on_timeslice_end}
use eyn_os.Sched.Timeslice.Items.{AllLocal}
use eyn_os.Sched.Timeslice.Progress.{timeslice_fuel}

-- A call of the interface.
pub data Call : Type 0 where
  registers : Request → Call
  readies : ℕ → Call
  unreadies : ℕ → Call
  budgets : ℕ → ℕ → Call
  ends_slice : Call

-- Sound queues, and every registered item may run here.
pub record Good (s : Sched) : Type 0 where
  pub sound : Sound s
  pub near : AllLocal s

-- What is asked of the work functions: they leave the queues sound, take no id away, and register
-- no item for another processor. Calls of the interface itself do so.
pub record Lawful (call : ℕ → ℕ → Sched → Sched) : Type 0 where
  pub good : (f i : ℕ) (s : Sched) → Good s → Good (call f i s)
  pub ids : (f i : ℕ) (s : Sched) (j : ℕ) → (s.work j).id ≢ 0 → ((call f i s).work j).id ≢ 0

-- A request for any processor, or for a set of them that has this one.
abbrev pub IsNear : Request → Type 0
IsNear r = (r.affinity_mask ≡ 0) ⊎ (test_bit r.affinity_mask 0 ≡ true)

abbrev pub CallIsNear : Call → Type 0
CallIsNear (registers r) = IsNear r
CallIsNear _ = Unit {0}

abbrev pub AllNear : List Call → Type 0
AllNear [] = Unit {0}
AllNear (c ∷ cs) = CallIsNear c × AllNear cs

module _ (call : ℕ → ℕ → Sched → Sched) where
  -- The effect of one call; `none` if the fuel of the loop ran out.
  unfoldable pub perform : Call → Sched → Option Sched
  perform (registers r) s = some (register r s).1
  perform (readies id) s = some (set_ready id s).1
  perform (unreadies id) s = some (unready id s).1
  perform (budgets id b) s = some (update_budget id b s).1
  perform ends_slice s =
      Option.map (λ (r : Bool × Sched). r.1) (on_timeslice_end call timeslice_fuel s)

  unfoldable pub run_calls : List Call → Sched → Option Sched
  run_calls [] s = some s
  run_calls (c ∷ cs) s = Option.bind (perform c s) (run_calls cs)
