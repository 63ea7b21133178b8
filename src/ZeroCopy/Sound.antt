-- ===== src/ZeroCopy/Sound.antt =====
-- Every handle of src/utilities/zero_copy.c stays inside its file: the invariant, and that each
-- operation keeps it.
use eyn_os.Base.{
  ℕ, ◌+◌, ◌-◌, ◌%◌, ◌^◌, ◌<◌, ◌≤◌, ◌≡◌, refl, false, not, ◌&&◌, Option, none, some, List, leb, ltb,
  ◌==◌, update_self, min, inl, inr, Bool-cases, arith,
}
use eyn_os.ZeroCopy.{
  File, Saved, ZeroCopy, Env, max_anon_maps, good_fd, set_file, count_operation, readable, writable,
  free_buffer, log,
}
use eyn_os.ZeroCopy.Io.{read, write, store, extend, extended, seek, seek_to, seek_target}
use eyn_os.ZeroCopy.Move.{truncate}

-- A handle whose place lies in its file, and whose file has a buffer unless it is empty.
abbrev pub Held : File → Type 0
Held f =
    (f.current_offset ≤ f.file_size)
    × (f.file_size < 2 ^ 32)
    × (f.mapped_address ≡ 0 → f.file_size ≡ 0)

pub record Sound (s : ZeroCopy) : Type 0 where
  pub held : (fd : ℕ) → Held (s.files fd)
  pub fds : s.fd_count ≤ s.max_files
  pub few : s.max_files ≤ 16
  pub anon : s.anon_count ≤ max_anon_maps

pub Sound-set_file : (fd : ℕ) (f : File) (s : ZeroCopy) → Sound s → Held f → Sound (set_file fd f s)
Sound-set_file fd f s h held = record {
  held = λ k. elim (Bool-cases (fd == k)) [ inl e ↦ rw e held | inr e ↦ rw e (h.held k) ];
  fds = h.fds;
  few = h.few;
  anon = h.anon;
}

pub Sound-counted : (s : ZeroCopy) → Sound s → Sound (count_operation s)
Sound-counted s h = record { held = h.held; fds = h.fds; few = h.few; anon = h.anon }

pub Sound-log : (new : List Saved) (s : ZeroCopy) → Sound s → Sound (log new s)
Sound-log new s h = record { held = h.held; fds = h.fds; few = h.few; anon = h.anon }

pub Sound-free_buffer : (addr : ℕ) (s : ZeroCopy) → Sound s → Sound (free_buffer addr s)
Sound-free_buffer addr s h = elim (Bool-cases (addr == 0)) [
  | inl e ↦ rw e h
  | inr e ↦ rw e (record { held = h.held; fds = h.fds; few = h.few; anon = h.anon })
]

pub advanced : (off n size : ℕ) → off + n ≤ size → size < 2 ^ 32 → (off + n) % 2 ^ 32 ≤ size
advanced off n size h b = omega arith

pub read-Sound :
    (e : Env) (fd : ℕ) (buf : ℕ → ℕ) (count : ℕ) (s : ZeroCopy)
    → Sound s
    → Sound (read e fd buf count s).2
unfolding read
read-Sound e fd buf count s h =
    let f = s.files fd in
    let (inside, size, mapped) = h.held fd in
    elim (Bool-cases (e.allowed && good_fd s fd && readable f.flags)) [
      | inl ok ↦ elim (Bool-cases (leb f.file_size f.current_offset)) [
        | inl past ↦ simp (ok, past) h
        | inr before ↦
            let n = min count (f.file_size - f.current_offset) in
            simp (ok, before)
              (Sound-counted _ (
                Sound-set_file fd _ s h
                  (advanced f.current_offset n f.file_size (omega arith) size, size, mapped)))
      ]
      | inr bad ↦ simp bad h
    ]

-- A write at a place where the file has room for it.
store-Sound :
    (fd : ℕ) (buf : ℕ → ℕ) (count : ℕ) (s : ZeroCopy)
    → Sound s
    → (s.files fd).current_offset + count ≤ (s.files fd).file_size
    → Sound (store fd buf count s).1
store-Sound fd buf count s h room =
    let f = s.files fd in
    let (inside, size, mapped) = h.held fd in
    Sound-counted _ (
      Sound-set_file fd _ s h (advanced f.current_offset count f.file_size room size, size, mapped))

extend-Sound :
    (e : Env) (fd end_off : ℕ) (s : ZeroCopy)
    → Sound s
    → (e.new_buf == 0) ≡ false
    → (s.files fd).file_size < end_off
    → end_off < 2 ^ 32
    → Sound (extend e fd end_off s)
extend-Sound e fd end_off s h buf more small =
    let (inside, size, mapped) = h.held fd in
    Sound-set_file fd _ _ (Sound-free_buffer (s.files fd).mapped_address s h)
      (omega arith, small, λ z. absurd (ground arith))

pub write-Sound :
    (e : Env) (fd : ℕ) (buf : ℕ → ℕ) (count : ℕ) (s : ZeroCopy)
    → count < 2 ^ 32
    → Sound s
    → Sound (write e fd buf count s).1
unfolding write
write-Sound e fd buf count s hc h =
    let f = s.files fd in
    elim (Bool-cases (
      e.allowed
      && good_fd s fd
      && writable f.flags
      && not (ltb (0xFFFF_FFFF - count) f.current_offset))) [
        | inl ok ↦ elim (Bool-cases (ltb f.file_size (f.current_offset + count))) [
          | inl past ↦ elim (Bool-cases (e.may_allocate && not (e.new_buf == 0))) [
            | inl room ↦
                let small : f.current_offset + count < 2 ^ 32 = ground arith in
                let buf_ok : (e.new_buf == 0) ≡ false = ground arith in
                let end_off = f.current_offset + count in
                simp (ok, past, room)
                  (store-Sound fd buf count (extend e fd end_off s)
                    (extend-Sound e fd end_off s h buf_ok (ground arith) small)
                    (rw
                      (update_self (free_buffer f.mapped_address s).files fd (extended e end_off f))
                      (omega arith)))
            | inr full ↦ simp (ok, past, full) h
          ]
          | inr before ↦ simp (ok, before) (store-Sound fd buf count s h (ground arith))
        ]
        | inr bad ↦ simp bad h
      ]

pub seek-Sound :
    (e : Env) (fd offset whence : ℕ) (s : ZeroCopy) → Sound s → Sound (seek e fd offset whence s).1
unfolding seek
seek-Sound e fd offset whence s h = elim (Bool-cases (e.allowed && good_fd s fd)) [
  | inl ok ↦ simp ok (seek_to-Sound fd (seek_target (s.files fd) offset whence) s h)
  | inr bad ↦ simp bad h
]
  where
    seek_to-Sound :
        (fd : ℕ) (target : Option ℕ) (s : ZeroCopy) → Sound s → Sound (seek_to fd target s).1
    seek_to-Sound fd none s h = h
    seek_to-Sound fd (some offset) s h =
        let (inside, size, mapped) = h.held fd in
        elim (Bool-cases (ltb (s.files fd).file_size offset)) [
          | inl past ↦ simp past h
          | inr before ↦ simp before (Sound-set_file fd _ s h (ground arith, size, mapped))
        ]

pub truncate-Sound :
    (e : Env) (fd n : ℕ) (s : ZeroCopy) → n < 2 ^ 32 → Sound s → Sound (truncate e fd n s).1
unfolding truncate
truncate-Sound e fd n s hn h =
    let f = s.files fd in
    elim (Bool-cases (e.allowed && good_fd s fd && writable f.flags)) [
      | inl ok ↦ elim (Bool-cases (n == f.file_size)) [
        | inl same ↦ simp (ok, same) h
        | inr other ↦ elim (Bool-cases (n == 0)) [
          | inl nil ↦
              simp (ok, other, nil)
                (Sound-set_file fd _ _ (Sound-free_buffer f.mapped_address s h)
                  (omega arith, omega arith, λ z. refl))
          | inr more ↦ elim (Bool-cases (e.new_buf == 0)) [
            | inl full ↦ simp (ok, other, more, full) h
            | inr room ↦
                simp (ok, other, more, room)
                  (Sound-set_file fd _ _ (Sound-free_buffer f.mapped_address s h)
                    (ground arith, hn, λ z. absurd (ground arith)))
          ]
        ]
      ]
      | inr bad ↦ simp bad h
    ]
