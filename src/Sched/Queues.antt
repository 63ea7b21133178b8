-- ===== src/Sched/Queues.antt =====
-- src/cpu/sched.c: the linked run queues stand for one list of work indices for each priority.
pub mod Links
pub mod Append
pub mod Enqueue
pub mod RemoveHead
pub mod Dequeue
pub mod Frame
use eyn_os.Base.{
  ℕ, ◌^◌, ◌<◌, ◌≡◌, Bool, true, false, none, some, List, [], ◌∷◌, Distinct, contains, last?,
  is_cons,
}
use eyn_os.Base.Bits.{test_bit}
use eyn_os.Sched.{Sched, work_max, work_prios}
use Links.{Chain}

-- The queues hold exactly the lists `qs`: each is linked from head to tail, no item stands twice,
-- and the bitmap marks the ones that are not empty.
pub record Linked (s : Sched) (qs : ℕ → List ℕ) : Type 0 where
  pub chain : (p : ℕ) → p < work_prios → Chain s.work (s.runq p).head (qs p)
  pub tail : (p : ℕ) → p < work_prios → (s.runq p).tail ≡ last? (qs p)
  pub distinct : (p : ℕ) → Distinct (qs p)
  pub inside : (p i : ℕ) → contains (qs p) i ≡ true → (p < work_prios) × (i < work_max)
  pub queued : (p i : ℕ) → contains (qs p) i ≡ true → (s.work i).in_queue ≡ true
  pub apart : (p q i : ℕ) → contains (qs p) i ≡ true → contains (qs q) i ≡ true → p ≡ q
  pub ready : (p : ℕ) → p < work_prios → test_bit s.ready_bitmap p ≡ is_cons (qs p)
  pub word : s.ready_bitmap < 2 ^ 32

-- Item `i` stands in some queue.
abbrev pub Placed : ℕ → (ℕ → List ℕ) → Type 0
Placed i qs = (p : ℕ) × (contains (qs p) i ≡ true)

-- No item that is marked as queued is lost.
abbrev pub Complete : Sched → (ℕ → List ℕ) → Type 0
Complete s qs = (i : ℕ) → i < work_max → (s.work i).in_queue ≡ true → Placed i qs
