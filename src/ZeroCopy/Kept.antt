-- ===== src/ZeroCopy/Kept.antt =====
-- The operations of src/utilities/zero_copy.c that open, close, map and copy keep every handle inside
-- its file.
use eyn_os.Base.{
  ℕ, ◌+◌, ◌%◌, ◌^◌, ◌<◌, ◌≤◌, ◌≡◌, ◌≢◌, refl, sym, ap, subst, Bool, not, ◌&&◌, ◌||◌, Option, none,
  some, List, leb, ltb, ◌==◌, update_ne, inl, inr, Bool-cases, arith,
}
use eyn_os.ZeroCopy.{
  File, Saved, ZeroCopy, Env, Found, max_anon_maps, good_fd, writable, writeback, open_file,
  open_found, opened_file, close, close_written,
}
use eyn_os.ZeroCopy.Maps.{
  mmap, munmap, unmap, unmap_file, find_anon, find_mapped, msync, sync, sync_written,
}
use eyn_os.ZeroCopy.Move.{
  splice, tee, common, available, copy_between, advance, mark_dirty, reset_stats,
}
use eyn_os.ZeroCopy.Sound.{
  Held, Sound, Sound-set_file, Sound-counted, Sound-log, Sound-free_buffer, advanced,
}

-- A file stays inside its size when it is written back.
writeback-Held : (e : Env) (f : File) → Held f → Held (writeback e f).1.0
unfolding writeback
writeback-Held e f h = elim (Bool-cases (not f.dirty || not (writable f.flags))) [
  | inl clean ↦ simp clean h
  | inr dirty ↦ elim (Bool-cases ((f.mapped_address == 0) && not (f.file_size == 0))) [
    | inl lost ↦ simp (dirty, lost) h
    | inr kept ↦ elim (Bool-cases (not e.superblock)) [
      | inl bad ↦ simp (dirty, kept, bad) h
      | inr good ↦ elim (Bool-cases e.written) [
        | inl ok ↦ simp (dirty, kept, good, ok) h
        | inr no_ok ↦ simp (dirty, kept, good, no_ok) h
      ]
    ]
  ]
]

-- The handle is cleared when it is closed.
pub close-Sound : (e : Env) (fd : ℕ) (s : ZeroCopy) → Sound s → Sound (close e fd s).1
unfolding close
close-Sound e fd s h = elim (Bool-cases (good_fd s fd)) [
  | inl ok ↦ simp ok (
      close_written-Sound fd (writeback e (s.files fd)) s h
        (writeback-Held e (s.files fd) (h.held fd)))
  | inr bad ↦ simp bad h
]
  where
    close_written-Sound :
        (fd : ℕ) (w : Bool × (File × List Saved)) (s : ZeroCopy)
        → Sound s
        → Held w.1.0
        → Sound (close_written fd w s).1
    close_written-Sound fd (ok, (f, new)) s h held = Sound-log new _ (
        Sound-set_file fd _ _ (Sound-free_buffer _ _ (Sound-set_file fd f s h held))
          (omega arith, omega arith, λ z. refl))

pub msync-Sound :
    (e : Env) (addr length flags : ℕ) (s : ZeroCopy)
    → Sound s
    → Sound (msync e addr length flags s).1
unfolding msync
msync-Sound e addr length flags s h = elim (Bool-cases e.allowed) [
  | inl ok ↦ simp ok (sync-Sound (find_mapped s.fd_count 0 addr s.files) s h)
  | inr bad ↦ simp bad h
]
  where
    written-Sound :
        (fd : ℕ) (w : Bool × (File × List Saved)) (s : ZeroCopy)
        → Sound s
        → Held w.1.0
        → Sound (sync_written fd w s).1
    written-Sound fd (ok, (f, new)) s h held = Sound-log new _ (Sound-set_file fd f s h held)

    sync-Sound : (at : Option ℕ) (s : ZeroCopy) → Sound s → Sound (sync e at s).1
    sync-Sound none s h = h
    sync-Sound (some fd) s h = elim (Bool-cases (s.files fd).dirty) [
      | inl dirty ↦ simp dirty (
          written-Sound fd (writeback e (s.files fd)) s h
            (writeback-Held e (s.files fd) (h.held fd)))
      | inr clean ↦ simp clean h
    ]

pub mmap-Sound :
    (e : Env) (addr length flags fd offset : ℕ) (s : ZeroCopy)
    → Sound s
    → Sound (mmap e addr length flags fd offset s).1
unfolding mmap
mmap-Sound e addr length flags fd offset s h = elim (Bool-cases e.allowed) [
  | inl ok ↦ elim (Bool-cases (good_fd s fd)) [
    | inl file ↦ elim (Bool-cases (ltb (s.files fd).file_size ((offset + length) % 2 ^ 32))) [
      | inl past ↦ simp (ok, file, past) h
      | inr inside ↦ simp (ok, file, inside) h
    ]
    | inr anonymous ↦ elim (Bool-cases (e.new_buf == 0)) [
      | inl full ↦ simp (ok, anonymous, full) h
      | inr some_buf ↦ elim (Bool-cases (ltb s.anon_count max_anon_maps)) [
        | inl room ↦
            simp (ok, anonymous, some_buf, room)
              (record { held = h.held; fds = h.fds; few = h.few; anon = ground arith })
        | inr none_left ↦ simp (ok, anonymous, some_buf, none_left) h
      ]
    ]
  ]
  | inr bad ↦ simp bad h
]

pub munmap-Sound : (addr length : ℕ) (s : ZeroCopy) → Sound s → Sound (munmap addr length s).1
unfolding munmap
munmap-Sound addr length s h = elim (Bool-cases (addr == 0)) [
  | inl null ↦ simp null h
  | inr given ↦ simp given (unmap-Sound addr (find_anon s.anon_count 0 addr s.anon_maps) s h)
]
  where
    unmap_file-same : (at : Option ℕ) (s : ZeroCopy) → (unmap_file at s).1 ≡ s
    unmap_file-same none s = refl
    unmap_file-same (some fd) s = refl

    unmap-Sound : (addr : ℕ) (at : Option ℕ) (s : ZeroCopy) → Sound s → Sound (unmap addr at s).1
    unmap-Sound addr none s h =
        subst Sound (sym (unmap_file-same (find_mapped s.fd_count 0 addr s.files) s)) h
    unmap-Sound addr (some i) s h = record {
      held = h.held;
      fds = h.fds;
      few = h.few;
      anon = omega (arith, h.anon);
    }

-- The place of a handle goes on by what its file still has.
advance-Sound :
    (fd n : ℕ) (s : ZeroCopy)
    → Sound s
    → (s.files fd).current_offset + n ≤ (s.files fd).file_size
    → Sound (advance fd n s)
advance-Sound fd n s h room =
    let f = s.files fd in
    let (inside, size, mapped) = h.held fd in
    Sound-set_file fd _ s h (advanced f.current_offset n f.file_size room size, size, mapped)

mark_dirty-Sound : (fd : ℕ) (s : ZeroCopy) → Sound s → Sound (mark_dirty fd s)
mark_dirty-Sound fd s h = Sound-set_file fd _ s h (h.held fd)

copy_between-Sound :
    (fd_in fd_out n : ℕ) (s : ZeroCopy) → Sound s → Sound (copy_between fd_in fd_out n s)
copy_between-Sound fd_in fd_out n s h = Sound-set_file fd_out _ s h (h.held fd_out)

-- A copy moves no place and changes no size.
copy_between-place :
    (fd_in fd_out n fd : ℕ) (s : ZeroCopy)
    → (((copy_between fd_in fd_out n s).files fd).current_offset ≡ (s.files fd).current_offset)
      × (((copy_between fd_in fd_out n s).files fd).file_size ≡ (s.files fd).file_size)
copy_between-place fd_in fd_out n fd s = elim (Bool-cases (fd_out == fd)) [
  | inl e ↦
      let same : fd_out ≡ fd = ground arith in
      rw e (ap (λ k. (s.files k).current_offset) same, ap (λ k. (s.files k).file_size) same)
  | inr e ↦ rw e (refl, refl)
]

available-room : (f : File) (n : ℕ) → Held f → n ≤ available f → f.current_offset + n ≤ f.file_size
available-room f n (inside, size, mapped) h = omega arith

common-le :
    (fd_in fd_out count : ℕ) (s : ZeroCopy)
    → (common fd_in fd_out count s ≤ available (s.files fd_in))
      × (common fd_in fd_out count s ≤ available (s.files fd_out))
common-le fd_in fd_out count s = (omega arith, omega arith)

advance-other : (fd k n : ℕ) (s : ZeroCopy) → fd ≢ k → (advance fd n s).files k ≡ s.files k
advance-other fd k n s h = update_ne s.files fd k _ h

pub tee-Sound :
    (e : Env) (fd_in fd_out count : ℕ) (s : ZeroCopy)
    → Sound s
    → Sound (tee e fd_in fd_out count s).1
unfolding tee
tee-Sound e fd_in fd_out count s h =
    let n = common fd_in fd_out count s in
    let copied = copy_between fd_in fd_out n s in
    let (off, size) = copy_between-place fd_in fd_out n fd_out s in
    let room =
      available-room (s.files fd_out) n (h.held fd_out) (common-le fd_in fd_out count s).1 in
    elim (Bool-cases (e.allowed && good_fd s fd_in && good_fd s fd_out)) [
      | inl ok ↦ simp ok (
          Sound-counted _ (
            mark_dirty-Sound fd_out _ (
              advance-Sound fd_out n copied (copy_between-Sound fd_in fd_out n s h)
                (rw (off, size) room))))
      | inr bad ↦ simp bad h
    ]

-- The two handles must differ: with one handle the place would go on twice.
pub splice-Sound :
    (e : Env) (fd_in fd_out count : ℕ) (s : ZeroCopy)
    → fd_in ≢ fd_out
    → Sound s
    → Sound (splice e fd_in fd_out count s).1
unfolding splice
splice-Sound e fd_in fd_out count s other h =
    let n = common fd_in fd_out count s in
    let copied = copy_between fd_in fd_out n s in
    let moved = advance fd_in n copied in
    let (off_in, size_in) = copy_between-place fd_in fd_out n fd_in s in
    let (off_out, size_out) = copy_between-place fd_in fd_out n fd_out s in
    let (le_in, le_out) = common-le fd_in fd_out count s in
    let room_in = available-room (s.files fd_in) n (h.held fd_in) le_in in
    let room_out = available-room (s.files fd_out) n (h.held fd_out) le_out in
    let kept : moved.files fd_out ≡ copied.files fd_out =
      advance-other fd_in fd_out n copied other in
    elim (Bool-cases (e.allowed && good_fd s fd_in && good_fd s fd_out)) [
      | inl ok ↦ simp ok (
          Sound-counted _ (
            mark_dirty-Sound fd_out _ (
              advance-Sound fd_out n moved
                (advance-Sound fd_in n copied (copy_between-Sound fd_in fd_out n s h)
                  (rw (off_in, size_in) room_in))
                (rw (kept, off_out, size_out) room_out))))
      | inr bad ↦ simp bad h
    ]

pub reset_stats-Sound : (s : ZeroCopy) → Sound s → Sound (reset_stats s)
unfolding reset_stats
reset_stats-Sound s h = record {
  held = λ fd. elim (Bool-cases (ltb fd s.fd_count)) [
    | inl e ↦ rw e (h.held fd)
    | inr e ↦ rw e (h.held fd)
  ];
  fds = h.fds;
  few = h.few;
  anon = h.anon;
}

-- A file on disk has a size of 32 bits.
pub open_file-Sound :
    (e : Env) (drive flags : ℕ) (found : Option Found) (s : ZeroCopy)
    → ((f : Found) → found ≡ some f → f.entry.size < 2 ^ 32)
    → Sound s
    → Sound (open_file e drive flags found s).1
unfolding open_file
open_file-Sound e drive flags found s hz h =
    elim (Bool-cases (e.allowed && s.ready && not (leb s.max_files s.fd_count) && e.superblock)) [
      | inl ok ↦ simp ok (found-Sound e drive flags found s (ground arith) hz h)
      | inr bad ↦ simp bad h
    ]
  where
    found-Sound :
        (e : Env) (drive flags : ℕ) (found : Option Found) (s : ZeroCopy)
        → s.fd_count < s.max_files
        → ((f : Found) → found ≡ some f → f.entry.size < 2 ^ 32)
        → Sound s
        → Sound (open_found e drive flags found s).1
    found-Sound e drive flags none s room hz h = h
    found-Sound e drive flags (some f) s room hz h =
        elim (Bool-cases (f.entry.is_file && not (e.new_buf == 0))) [
          | inl ok ↦ elim (Bool-cases (f.bytes_read == f.entry.size)) [
            | inl all ↦
                simp (ok, all)
                  (let p =
                      Sound-set_file s.fd_count (opened_file e drive flags f) s h
                        (omega arith, hz f refl, λ z. absurd (ground (arith, z))) in
                    record {
                      held = p.held;
                      fds = omega (arith, h.few);
                      few = h.few;
                      anon = h.anon;
                    })
            | inr part ↦ simp (ok, part) (Sound-free_buffer e.new_buf s h)
          ]
          | inr bad ↦ simp bad h
        ]
