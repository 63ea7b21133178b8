-- ===== src/ZeroCopy/RoundTrip.antt =====
-- What is written to a zero-copy file of src/utilities/zero_copy.c is what is read from it.
use eyn_os.Base.{
  ℕ, ◌+◌, ◌-◌, ◌^◌, ◌<◌, ◌≤◌, ◌≡◌, ◌≢◌, ◌∙◌, refl, sym, ap, subst, true, false, not, ◌&&◌, leb, ltb,
  ◌==◌, inl, inr, ◌⊎◌, Bool-cases, arith, max, update_self, update_ne,
}
use eyn_os.ZeroCopy.{File, ZeroCopy, Env, failed, good_fd, writable, free_buffer, copy_to, zeros}
use eyn_os.ZeroCopy.Io.{write, store, stored, extend, kept_bytes, extended}
use eyn_os.ZeroCopy.Sound.{Held, Sound}

-- What a write of `count` bytes makes of a handle: exactly those bytes change, from the handle's place
-- on, and the file grows if they do not fit.
pub record Written (f g : File) (buf : ℕ → ℕ) (count : ℕ) : Type 0 where
  pub place : g.current_offset ≡ f.current_offset + count
  pub size : g.file_size ≡ max f.file_size (f.current_offset + count)
  pub flags : g.flags ≡ f.flags
  pub new : (i : ℕ) → i < count → g.bytes (f.current_offset + i) ≡ buf i
  pub old :
      (i : ℕ)
      → i < f.file_size
      → (i < f.current_offset) ⊎ (f.current_offset + count ≤ i)
      → g.bytes i ≡ f.bytes i

-- The bytes that are copied, and the others.
pub copy_to_new :
    (dest src : ℕ → ℕ) (off n i : ℕ) → i < n → copy_to dest off src n (off + i) ≡ src i
copy_to_new dest src off n i h =
    let from : leb off (off + i) ≡ true = ground arith in
    let below : ltb (off + i) (off + n) ≡ true = ground arith in
    let index : off + i - off ≡ i = omega arith in rw (from, below, index) refl

pub copy_to_old :
    (dest src : ℕ → ℕ) (off n i : ℕ) → (i < off) ⊎ (off + n ≤ i) → copy_to dest off src n i ≡ dest i
copy_to_old dest src off n i (inl h) =
    let before : leb off i ≡ false = ground arith in rw before refl
copy_to_old dest src off n i (inr h) =
    let past : ltb i (off + n) ≡ false = ground arith in
    elim (Bool-cases (leb off i)) [ inl e ↦ rw (e, past) refl | inr e ↦ rw e refl ]

-- The handle after the bytes were stored, where the file has room.
stored-Written :
    (f : File) (buf : ℕ → ℕ) (count : ℕ)
    → f.current_offset + count ≤ f.file_size
    → f.file_size < 2 ^ 32
    → Written f (stored f buf count) buf count
stored-Written f buf count room size = record {
  place = omega arith;
  size = omega arith;
  flags = refl;
  new = λ i h. copy_to_new f.bytes buf f.current_offset count i h;
  old = λ i h o. copy_to_old f.bytes buf f.current_offset count i o;
}

pub copy_to_first : (dest src : ℕ → ℕ) (n i : ℕ) → i < n → copy_to dest 0 src n i ≡ src i
copy_to_first dest src n i h =
    let from : leb 0 i ≡ true = ground arith in
    let below : ltb i (0 + n) ≡ true = ground arith in
    let index : i - 0 ≡ i = omega arith in rw (from, below, index) refl

kept_bytes_all :
    (e : Env) (f : File)
    → (f.mapped_address == 0) ≡ false
    → (f.file_size == 0) ≡ false
    → kept_bytes e f ≡ copy_to e.fresh 0 f.bytes f.file_size
kept_bytes_all e f a b = simp (a, b) refl

-- The bytes of the old buffer are those of the larger one.
extended-bytes :
    (e : Env) (end_off : ℕ) (f : File) (i : ℕ)
    → Held f
    → f.file_size ≤ end_off
    → i < f.file_size
    → (extended e end_off f).bytes i ≡ f.bytes i
extended-bytes e end_off f i (inside, size, mapped) more h =
    let not_null : (f.mapped_address == 0) ≡ false = ground (arith, mapped) in
    let not_empty : (f.file_size == 0) ≡ false = ground arith in
    copy_to_old (kept_bytes e f) zeros f.file_size (end_off - f.file_size) i (inl h)
    ∙ ap (λ (b : ℕ → ℕ). b i) (kept_bytes_all e f not_null not_empty)
    ∙ copy_to_first e.fresh f.bytes f.file_size i h

extended-Written :
    (e : Env) (f : File) (buf : ℕ → ℕ) (count : ℕ)
    → Held f
    → f.file_size < f.current_offset + count
    → f.current_offset + count < 2 ^ 32
    → Written f (stored (extended e (f.current_offset + count) f) buf count) buf count
extended-Written e f buf count held more small =
    let g = extended e (f.current_offset + count) f in
    let w = stored-Written g buf count (omega arith) small in
    record {
      place = w.place;
      size = omega (arith, w.size);
      flags = w.flags;
      new = w.new;
      old = λ i h o.
          w.old i (omega arith) o
          ∙ extended-bytes e (f.current_offset + count) f i held (omega arith) h;
    }

-- What a write that succeeded did to the state.
pub record Wrote (s : ZeroCopy) (fd : ℕ) (buf : ℕ → ℕ) (count : ℕ) (r : ℕ × ZeroCopy) : Type 0 where
  pub result : r.0 ≡ count
  pub file : Written (s.files fd) (r.1.files fd) buf count
  pub others : (k : ℕ) → fd ≢ k → r.1.files k ≡ s.files k
  pub fds : r.1.fd_count ≡ s.fd_count

store-Wrote :
    (fd : ℕ) (buf : ℕ → ℕ) (count : ℕ) (s t : ZeroCopy)
    → Written (s.files fd) (stored (t.files fd) buf count) buf count
    → ((k : ℕ) → fd ≢ k → t.files k ≡ s.files k)
    → t.fd_count ≡ s.fd_count
    → Wrote s fd buf count (store fd buf count t)
store-Wrote fd buf count s t w other fds = record {
  result = refl;
  file =
      subst (λ g. Written (s.files fd) g buf count)
        (sym (update_self t.files fd (stored (t.files fd) buf count))) w;
  others = λ k ne. update_ne t.files fd k (stored (t.files fd) buf count) ne ∙ other k ne;
  fds = fds;
}

free_buffer-same :
    (addr : ℕ) (s : ZeroCopy)
    → ((free_buffer addr s).files ≡ s.files) × ((free_buffer addr s).fd_count ≡ s.fd_count)
free_buffer-same addr s = elim (Bool-cases (addr == 0)) [
  | inl e ↦ rw e (refl, refl)
  | inr e ↦ rw e (refl, refl)
]

grown-Wrote :
    (e : Env) (fd : ℕ) (buf : ℕ → ℕ) (count : ℕ) (s : ZeroCopy)
    → Held (s.files fd)
    → (s.files fd).file_size < (s.files fd).current_offset + count
    → (s.files fd).current_offset + count < 2 ^ 32
    → Wrote s fd buf count
        (store fd buf count (extend e fd ((s.files fd).current_offset + count) s))
grown-Wrote e fd buf count s held more small =
    let f = s.files fd in
    let end_off = f.current_offset + count in
    let (files, fds) = free_buffer-same f.mapped_address s in
    let t = extend e fd end_off s in
    store-Wrote fd buf count s t
      (subst (λ g. Written f (stored g buf count) buf count)
        (sym (update_self (free_buffer f.mapped_address s).files fd (extended e end_off f)))
        (extended-Written e f buf count held more small))
      (λ k ne.
        update_ne (free_buffer f.mapped_address s).files fd k (extended e end_off f) ne
        ∙ ap (λ (g : ℕ → File). g k) files)
      fds

-- A write of fewer than 2^32 - 1 bytes whose result is not -1 writes all of them at the handle's place,
-- moves the place behind them, extends the file if it must, and changes no other byte of the file and
-- no other handle.
pub write-Wrote :
    (e : Env) (fd : ℕ) (buf : ℕ → ℕ) (count : ℕ) (s : ZeroCopy)
    → Sound s
    → count < failed
    → (write e fd buf count s).0 ≢ failed
    → Wrote s fd buf count (write e fd buf count s)
unfolding write
write-Wrote e fd buf count s h hc ok =
    let f = s.files fd in
    elim (Bool-cases (
      e.allowed
      && good_fd s fd
      && writable f.flags
      && not (ltb (0xFFFF_FFFF - count) f.current_offset))) [
        | inl pass ↦ elim (Bool-cases (ltb f.file_size (f.current_offset + count))) [
          | inl past ↦ elim (Bool-cases (e.may_allocate && not (e.new_buf == 0))) [
            | inl room ↦
                simp (pass, past, room)
                  (grown-Wrote e fd buf count s (h.held fd) (ground arith) (ground arith))
            | inr full ↦ absurd (ok (simp (pass, past, full) refl))
          ]
          | inr before ↦
              simp (pass, before)
                (store-Wrote fd buf count s s
                  (stored-Written f buf count (ground arith) (h.held fd).1) (λ k ne. refl) refl)
        ]
        | inr bad ↦ absurd (ok (simp bad refl))
      ]
