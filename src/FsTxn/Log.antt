-- ===== src/FsTxn/Log.antt =====
-- What one drive of src/fs/fs_txn.c promises: a log of its own.
use eyn_os.Base.{
  ℕ, zero, suc, ◌+◌, ◌-◌, ◌%◌, ◌^◌, ◌≤◌, ◌≡◌, not, ◌||◌, List, [], ◌∷◌, ◌++◌, length, ltb, ◌==◌,
  if◌then◌else◌,
}
use eyn_os.FsTxn.{Entry, Txn, Drives, entry_max, blank, begin, commit, abort, touch}

pub data Op : Type 0 where
  begins : Op
  commits : Op
  aborts : Op
  touches : (tag len : ℕ) → Op

unfoldable pub step : ℕ → Op → Drives → Drives
step drive begins g = begin drive g
step drive commits g = commit drive g
step drive aborts g = abort drive g
step drive (touches tag len) g = touch drive tag len g

-- Calls in order, each for some drive.
unfoldable pub run : List (ℕ × Op) → Drives → Drives
run [] g = g
run ((d, o) ∷ os) g = run os (step d o g)

-- What a drive promises: a depth, and the records made since it was last closed, oldest first.
pub record Log : Type 0 where
  pub depth : ℕ
  pub records : List Entry

unfoldable pub log_step : Op → Log → Log
log_step begins l = record l { depth = (l.depth + 1) % 2 ^ 32 }
log_step commits l =
    if l.depth == 0
    then l
    else if l.depth == 1
    then record { depth = 0; records = [] }
    else record l { depth = l.depth - 1 }
log_step aborts l = record { depth = 0; records = [] }
log_step (touches tag len) l =
    if (l.depth == 0) || not (ltb (length l.records) entry_max)
    then l
    else record l { records = l.records ++ record { tag = tag; len = len } ∷ [] }

unfoldable pub log_run : List Op → Log → Log
log_run [] l = l
log_run (o ∷ os) l = log_run os (log_step o l)

-- The calls of a history for one drive.
unfoldable pub calls_of : ℕ → List (ℕ × Op) → List Op
calls_of drive [] = []
calls_of drive ((d, o) ∷ os) = if d == drive then o ∷ calls_of drive os else calls_of drive os

-- The first `n` entries of an array.
unfoldable pub first : ℕ → (ℕ → Entry) → List Entry
first zero a = []
first (suc n) a = first n a ++ a n ∷ []

-- A drive holds a log: its records fill the array from the front, and the rest is blank.
pub record Holds (t : Txn) (l : Log) : Type 0 where
  pub depth : t.depth ≡ l.depth
  pub count : t.count ≡ length l.records
  pub records : first t.count t.entries ≡ l.records
  pub room : t.count ≤ entry_max
  pub rest : (i : ℕ) → t.count ≤ i → t.entries i ≡ blank i
