-- ===== src/ZeroCopy/History.antt =====
-- Any sequence of calls of src/utilities/zero_copy.c after its initialisation. zero_copy_init is not
-- among them, as the kernel calls it once, while it starts (src/entry/kernel.c).
use eyn_os.Base.{
  ℕ, ◌+◌, ◌^◌, ◌<◌, ◌≤◌, ◌≡◌, ◌≢◌, refl, true, not, Option, some, List, [], ◌∷◌, ◌==◌, inl, inr,
  Bool-cases, arith,
}
use eyn_os.ZeroCopy.{ZeroCopy, Env, Found, max_zero_copy_files, emptied, init, open_file, close}
use eyn_os.ZeroCopy.Io.{read, write, seek}
use eyn_os.ZeroCopy.Maps.{mmap, munmap, msync}
use eyn_os.ZeroCopy.Move.{splice, tee, truncate, reset_stats}
use eyn_os.ZeroCopy.Sound.{Sound, read-Sound, write-Sound, seek-Sound, truncate-Sound}
use eyn_os.ZeroCopy.Kept.{
  open_file-Sound, close-Sound, msync-Sound, mmap-Sound, munmap-Sound, splice-Sound, tee-Sound,
  reset_stats-Sound,
}

-- A call, with the answers it gets.
pub data Call : Type 0 where
  opens : Env → (drive flags : ℕ) → Option Found → Call
  closes : Env → (fd : ℕ) → Call
  reads : Env → (fd : ℕ) → (ℕ → ℕ) → (count : ℕ) → Call
  writes : Env → (fd : ℕ) → (ℕ → ℕ) → (count : ℕ) → Call
  seeks : Env → (fd offset whence : ℕ) → Call
  truncates : Env → (fd length : ℕ) → Call
  maps : Env → (addr length flags fd offset : ℕ) → Call
  unmaps : (addr length : ℕ) → Call
  syncs : Env → (addr length flags : ℕ) → Call
  splices : Env → (fd_in fd_out count : ℕ) → Call
  tees : Env → (fd_in fd_out count : ℕ) → Call
  resets : Call

abbrev pub step : Call → ZeroCopy → ZeroCopy
step (opens e drive flags found) s = (open_file e drive flags found s).1
step (closes e fd) s = (close e fd s).1
step (reads e fd buf count) s = (read e fd buf count s).2
step (writes e fd buf count) s = (write e fd buf count s).1
step (seeks e fd offset whence) s = (seek e fd offset whence s).1
step (truncates e fd length) s = (truncate e fd length s).1
step (maps e addr length flags fd offset) s = (mmap e addr length flags fd offset s).1
step (unmaps addr length) s = (munmap addr length s).1
step (syncs e addr length flags) s = (msync e addr length flags s).1
step (splices e fd_in fd_out count) s = (splice e fd_in fd_out count s).1
step (tees e fd_in fd_out count) s = (tee e fd_in fd_out count s).1
step resets s = reset_stats s

abbrev pub run_calls : List Call → ZeroCopy → ZeroCopy
run_calls [] s = s
run_calls (c ∷ cs) s = run_calls cs (step c s)

-- Sizes have 32 bits, and a splice goes from one handle to another.
abbrev pub Lawful : Call → Type 0
Lawful (opens e drive flags found) = (f : Found) → found ≡ some f → f.entry.size < 2 ^ 32
Lawful (writes e fd buf count) = count < 2 ^ 32
Lawful (truncates e fd length) = length < 2 ^ 32
Lawful (splices e fd_in fd_out count) = fd_in ≢ fd_out
Lawful _ = Unit {0}

abbrev pub AllLawful : List Call → Type 0
AllLawful [] = Unit {0}
AllLawful (c ∷ cs) = Lawful c × AllLawful cs

step-Sound : (c : Call) (s : ZeroCopy) → Lawful c → Sound s → Sound (step c s)
step-Sound (opens e drive flags found) s l h = open_file-Sound e drive flags found s l h
step-Sound (closes e fd) s l h = close-Sound e fd s h
step-Sound (reads e fd buf count) s l h = read-Sound e fd buf count s h
step-Sound (writes e fd buf count) s l h = write-Sound e fd buf count s l h
step-Sound (seeks e fd offset whence) s l h = seek-Sound e fd offset whence s h
step-Sound (truncates e fd length) s l h = truncate-Sound e fd length s l h
step-Sound (maps e addr length flags fd offset) s l h = mmap-Sound e addr length flags fd offset s h
step-Sound (unmaps addr length) s l h = munmap-Sound addr length s h
step-Sound (syncs e addr length flags) s l h = msync-Sound e addr length flags s h
step-Sound (splices e fd_in fd_out count) s l h = splice-Sound e fd_in fd_out count s l h
step-Sound (tees e fd_in fd_out count) s l h = tee-Sound e fd_in fd_out count s h
step-Sound resets s l h = reset_stats-Sound s h

run_calls-Sound : (cs : List Call) (s : ZeroCopy) → AllLawful cs → Sound s → Sound (run_calls cs s)
run_calls-Sound [] s l h = h
run_calls-Sound (c ∷ cs) s (l, ls) h = run_calls-Sound cs (step c s) ls (step-Sound c s l h)

emptied-Sound : (most : ℕ) (s : ZeroCopy) → most ≤ 16 → Sound (emptied most s)
emptied-Sound most s h = record {
  held = λ fd. (omega arith, omega arith, λ z. refl);
  fds = omega arith;
  few = h;
  anon = omega arith;
}

-- After an initialisation for which malloc gave a table, any calls leave every handle inside its file,
-- with a buffer unless the file is empty, and both tables within their bounds, as long as sizes and
-- lengths have 32 bits and no splice goes from a handle to itself.
pub run_calls-init-Sound :
    (memory first second : ℕ) (s : ZeroCopy) (cs : List Call)
    → 0 < first + second
    → AllLawful cs
    → Sound (run_calls cs (init true memory first second s))
unfolding init
run_calls-init-Sound memory first second s cs given lawful =
    run_calls-Sound cs (init true memory first second s) lawful
      (elim (Bool-cases (not (first == 0))) [
        | inl one ↦ simp one (emptied-Sound (max_zero_copy_files memory) s (ground arith))
        | inr none_first ↦
            let two : not (second == 0) ≡ true = ground arith in
            simp (none_first, two) (emptied-Sound 2 s (omega arith))
      ])
