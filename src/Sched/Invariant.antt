-- ===== src/Sched/Invariant.antt =====
-- The invariant of the work table and run queues of src/cpu/sched.c, and every operation keeps it.
pub mod Steps
pub mod Boost
pub mod Register
use eyn_os.Base.{ℕ, ◌<◌, ◌≡◌, ◌≢◌, true, List}
use eyn_os.Sched.{Sched, work_max}
use eyn_os.Sched.Queues.{Linked, Complete}

-- Some lists of items are what the links and the bitmap hold, every item that is marked as queued is
-- in one of them, and only registered items are queued.
pub record Sound (s : Sched) : Type 0 where
  pub lists : ℕ → List ℕ
  pub linked : Linked s lists
  pub complete : Complete s lists
  pub named : (i : ℕ) → i < work_max → (s.work i).in_queue ≡ true → (s.work i).id ≢ 0
