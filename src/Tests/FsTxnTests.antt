-- ===== src/Tests/FsTxnTests.antt =====
-- Calls on two drives of src/fs/fs_txn.c.
use eyn_os.Base.{ℕ, ◌≡◌, refl, List, [], ◌∷◌, arith}
use eyn_os.FsTxn.{Drives, blank}
use eyn_os.FsTxn.Log.{
  Op, begins, aborts, touches, run, Log, log_step, log_run, calls_of, first, Holds,
}
use eyn_os.FsTxn.Refines.{run-Holds}

abbrev closed : Drives
closed drive = record { depth = 0; count = 0; entries = blank }

abbrev no_log : Log
no_log = record { depth = 0; records = [] }

abbrev calls : List (ℕ × Op)
calls = (0, begins) ∷ (1, begins) ∷ (0, touches 5 12) ∷ (1, aborts) ∷ (0, touches 6 8) ∷ []

run-Holds_example : Holds (run calls closed 0) (log_run (calls_of 0 calls) no_log)
unfolding first
run-Holds_example =
    run-Holds calls 0 closed no_log (omega arith) (record {
      depth = refl;
      count = refl;
      records = refl;
      room = omega arith;
      rest = λ i h. refl;
    })

-- What that log is.
calls-log :
    (log_run (calls_of 0 calls) no_log).records
    ≡ record { tag = 5; len = 12 } ∷ record { tag = 6; len = 8 } ∷ []
unfolding log_run log_step calls_of
calls-log = refl
