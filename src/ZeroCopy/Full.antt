-- ===== src/ZeroCopy/Full.antt =====
-- The table of src/utilities/zero_copy.c once it is full: closing makes no room.
use eyn_os.Base.{
  ℕ, ◌+◌, ◌-◌, ◌%◌, ◌^◌, ◌≤◌, ◌≡◌, refl, sym, subst, Bool, false, not, ◌&&◌, Option, none, some,
  List, [], ◌∷◌, leb, ltb, ◌==◌, inl, inr, Bool-cases, arith,
}
use eyn_os.ZeroCopy.{
  File, Saved, ZeroCopy, Env, Found, failed, good_fd, set_file, readable, writable, free_buffer,
  writeback, open_file, close, close_written, max_anon_maps,
}
use eyn_os.ZeroCopy.Io.{read, write, seek, seek_to, seek_target}
use eyn_os.ZeroCopy.Maps.{
  mmap, munmap, unmap, unmap_file, find_anon, find_mapped, msync, sync, sync_written,
}
use eyn_os.ZeroCopy.Move.{splice, tee, truncate, reset_stats}
use eyn_os.ZeroCopy.History.{
  Call, opens, closes, reads, writes, seeks, truncates, maps, unmaps, syncs, splices, tees, resets,
  step, run_calls,
}

-- No descriptor is left.
abbrev pub Full : ZeroCopy → Type 0
Full s = s.max_files ≤ s.fd_count

free_buffer-Full : (addr : ℕ) (s : ZeroCopy) → Full s → Full (free_buffer addr s)
free_buffer-Full addr s h = elim (Bool-cases (addr == 0)) [ inl e ↦ rw e h | inr e ↦ rw e h ]

open_file-Full :
    (e : Env) (drive flags : ℕ) (found : Option Found) (s : ZeroCopy)
    → Full s
    → open_file e drive flags found s ≡ (failed, s)
unfolding open_file
open_file-Full e drive flags found s h =
    let closed : (e.allowed && s.ready && not (leb s.max_files s.fd_count) && e.superblock)
        ≡ false =
      ground arith in
    simp closed refl

close-Full : (e : Env) (fd : ℕ) (s : ZeroCopy) → Full s → Full (close e fd s).1
unfolding close
close-Full e fd s h = elim (Bool-cases (good_fd s fd)) [
  | inl ok ↦ simp ok (written-Full fd (writeback e (s.files fd)) s h)
  | inr bad ↦ simp bad h
]
  where
    written-Full :
        (fd : ℕ) (w : Bool × (File × List Saved)) (s : ZeroCopy)
        → Full s
        → Full (close_written fd w s).1
    written-Full fd (ok, (f, new)) s h = free_buffer-Full _ (set_file fd f s) h

read-Full :
    (e : Env) (fd : ℕ) (buf : ℕ → ℕ) (count : ℕ) (s : ZeroCopy)
    → Full s
    → Full (read e fd buf count s).2
unfolding read
read-Full e fd buf count s h =
    elim (Bool-cases (e.allowed && good_fd s fd && readable (s.files fd).flags)) [
      | inl ok ↦ elim (Bool-cases (leb (s.files fd).file_size (s.files fd).current_offset)) [
        | inl past ↦ simp (ok, past) h
        | inr before ↦ simp (ok, before) h
      ]
      | inr bad ↦ simp bad h
    ]

write-Full :
    (e : Env) (fd : ℕ) (buf : ℕ → ℕ) (count : ℕ) (s : ZeroCopy)
    → Full s
    → Full (write e fd buf count s).1
unfolding write
write-Full e fd buf count s h =
    let f = s.files fd in
    elim (Bool-cases (
      e.allowed
      && good_fd s fd
      && writable f.flags
      && not (ltb (0xFFFF_FFFF - count) f.current_offset))) [
        | inl ok ↦ elim (Bool-cases (ltb f.file_size (f.current_offset + count))) [
          | inl past ↦ elim (Bool-cases (e.may_allocate && not (e.new_buf == 0))) [
            | inl room ↦ simp (ok, past, room) (free_buffer-Full f.mapped_address s h)
            | inr full ↦ simp (ok, past, full) h
          ]
          | inr before ↦ simp (ok, before) h
        ]
        | inr bad ↦ simp bad h
      ]

seek-Full :
    (e : Env) (fd offset whence : ℕ) (s : ZeroCopy) → Full s → Full (seek e fd offset whence s).1
unfolding seek
seek-Full e fd offset whence s h = elim (Bool-cases (e.allowed && good_fd s fd)) [
  | inl ok ↦ simp ok (to-Full fd (seek_target (s.files fd) offset whence) s h)
  | inr bad ↦ simp bad h
]
  where
    to-Full : (fd : ℕ) (target : Option ℕ) (s : ZeroCopy) → Full s → Full (seek_to fd target s).1
    to-Full fd none s h = h
    to-Full fd (some offset) s h = elim (Bool-cases (ltb (s.files fd).file_size offset)) [
      | inl past ↦ simp past h
      | inr before ↦ simp before h
    ]

truncate-Full : (e : Env) (fd n : ℕ) (s : ZeroCopy) → Full s → Full (truncate e fd n s).1
unfolding truncate
truncate-Full e fd n s h =
    let f = s.files fd in
    elim (Bool-cases (e.allowed && good_fd s fd && writable f.flags)) [
      | inl ok ↦ elim (Bool-cases (n == f.file_size)) [
        | inl same ↦ simp (ok, same) h
        | inr other ↦ elim (Bool-cases (n == 0)) [
          | inl nil ↦ simp (ok, other, nil) (free_buffer-Full f.mapped_address s h)
          | inr more ↦ elim (Bool-cases (e.new_buf == 0)) [
            | inl full ↦ simp (ok, other, more, full) h
            | inr room ↦ simp (ok, other, more, room) (free_buffer-Full f.mapped_address s h)
          ]
        ]
      ]
      | inr bad ↦ simp bad h
    ]

mmap-Full :
    (e : Env) (addr length flags fd offset : ℕ) (s : ZeroCopy)
    → Full s
    → Full (mmap e addr length flags fd offset s).1
unfolding mmap
mmap-Full e addr length flags fd offset s h = elim (Bool-cases e.allowed) [
  | inl ok ↦ elim (Bool-cases (good_fd s fd)) [
    | inl file ↦ elim (Bool-cases (ltb (s.files fd).file_size ((offset + length) % 2 ^ 32))) [
      | inl past ↦ simp (ok, file, past) h
      | inr inside ↦ simp (ok, file, inside) h
    ]
    | inr anonymous ↦ elim (Bool-cases (e.new_buf == 0)) [
      | inl full ↦ simp (ok, anonymous, full) h
      | inr some_buf ↦ elim (Bool-cases (ltb s.anon_count max_anon_maps)) [
        | inl room ↦ simp (ok, anonymous, some_buf, room) h
        | inr none_left ↦ simp (ok, anonymous, some_buf, none_left) h
      ]
    ]
  ]
  | inr bad ↦ simp bad h
]

munmap-Full : (addr length : ℕ) (s : ZeroCopy) → Full s → Full (munmap addr length s).1
unfolding munmap
munmap-Full addr length s h = elim (Bool-cases (addr == 0)) [
  | inl null ↦ simp null h
  | inr given ↦ simp given (unmap-Full addr (find_anon s.anon_count 0 addr s.anon_maps) s h)
]
  where
    file-Full : (at : Option ℕ) (s : ZeroCopy) → Full s → Full (unmap_file at s).1
    file-Full none s h = h
    file-Full (some fd) s h = h

    unmap-Full : (addr : ℕ) (at : Option ℕ) (s : ZeroCopy) → Full s → Full (unmap addr at s).1
    unmap-Full addr none s h = file-Full (find_mapped s.fd_count 0 addr s.files) s h
    unmap-Full addr (some i) s h = h

msync-Full :
    (e : Env) (addr length flags : ℕ) (s : ZeroCopy) → Full s → Full (msync e addr length flags s).1
unfolding msync
msync-Full e addr length flags s h = elim (Bool-cases e.allowed) [
  | inl ok ↦ simp ok (sync-Full (find_mapped s.fd_count 0 addr s.files) s h)
  | inr bad ↦ simp bad h
]
  where
    written-Full :
        (fd : ℕ) (w : Bool × (File × List Saved)) (s : ZeroCopy)
        → Full s
        → Full (sync_written fd w s).1
    written-Full fd (ok, (f, new)) s h = h

    sync-Full : (at : Option ℕ) (s : ZeroCopy) → Full s → Full (sync e at s).1
    sync-Full none s h = h
    sync-Full (some fd) s h = elim (Bool-cases (s.files fd).dirty) [
      | inl dirty ↦ simp dirty (written-Full fd (writeback e (s.files fd)) s h)
      | inr clean ↦ simp clean h
    ]

splice-Full : (e : Env) (i o count : ℕ) (s : ZeroCopy) → Full s → Full (splice e i o count s).1
unfolding splice
splice-Full e i o count s h = elim (Bool-cases (e.allowed && good_fd s i && good_fd s o)) [
  | inl ok ↦ simp ok h
  | inr bad ↦ simp bad h
]

tee-Full : (e : Env) (i o count : ℕ) (s : ZeroCopy) → Full s → Full (tee e i o count s).1
unfolding tee
tee-Full e i o count s h = elim (Bool-cases (e.allowed && good_fd s i && good_fd s o)) [
  | inl ok ↦ simp ok h
  | inr bad ↦ simp bad h
]

step-Full : (c : Call) (s : ZeroCopy) → Full s → Full (step c s)
unfolding reset_stats
step-Full (opens e drive flags found) s h =
    subst (λ (r : ℕ × ZeroCopy). Full r.1) (sym (open_file-Full e drive flags found s h)) h
step-Full (closes e fd) s h = close-Full e fd s h
step-Full (reads e fd buf count) s h = read-Full e fd buf count s h
step-Full (writes e fd buf count) s h = write-Full e fd buf count s h
step-Full (seeks e fd offset whence) s h = seek-Full e fd offset whence s h
step-Full (truncates e fd length) s h = truncate-Full e fd length s h
step-Full (maps e addr length flags fd offset) s h = mmap-Full e addr length flags fd offset s h
step-Full (unmaps addr length) s h = munmap-Full addr length s h
step-Full (syncs e addr length flags) s h = msync-Full e addr length flags s h
step-Full (splices e i o count) s h = splice-Full e i o count s h
step-Full (tees e i o count) s h = tee-Full e i o count s h
step-Full resets s h = h

run_calls-Full : (cs : List Call) (s : ZeroCopy) → Full s → Full (run_calls cs s)
run_calls-Full [] s h = h
run_calls-Full (c ∷ cs) s h = run_calls-Full cs (step c s) (step-Full c s h)

-- Once as many files have been opened as the table has places, no sequence of calls, closing every
-- file included, makes room: every later open answers -1 and changes nothing.
pub open_file-run_calls :
    (cs : List Call) (s : ZeroCopy) (e : Env) (drive flags : ℕ) (found : Option Found)
    → s.max_files ≤ s.fd_count
    → open_file e drive flags found (run_calls cs s) ≡ (failed, run_calls cs s)
open_file-run_calls cs s e drive flags found h =
    open_file-Full e drive flags found (run_calls cs s) (run_calls-Full cs s h)
