-- ===== src/ZeroCopy/ReadBack.antt =====
-- A write to a zero-copy file of src/utilities/zero_copy.c, a seek back and a read give the bytes that
-- were written.
use eyn_os.Base.{
  ℕ, ◌+◌, ◌-◌, ◌<◌, ◌≤◌, ◌≡◌, ◌≢◌, ◌∙◌, refl, ap, Bool, true, false, not, ◌&&◌, leb, ltb, inl, inr,
  Bool-cases, arith, min, update_self,
}
use eyn_os.ZeroCopy.{File, ZeroCopy, Env, failed, good_fd, set_file, readable, writable}
use eyn_os.ZeroCopy.Io.{read, write, seek}
use eyn_os.ZeroCopy.Sound.{Sound}
use eyn_os.ZeroCopy.Access.{readable-writable}
use eyn_os.ZeroCopy.RoundTrip.{write-Wrote, copy_to_first}

and_parts : (a b c d : Bool) → (a && b && c && d) ≡ true → (b ≡ true) × (c ≡ true)
and_parts true true true true e = (refl, refl)
and_parts true true true false e = (refl, refl)
and_parts true true false d e = absurd (ground arith)
and_parts true false c d e = absurd (ground arith)
and_parts false b c d e = absurd (ground arith)

-- What a write that succeeded says of its descriptor.
write_passed :
    (e : Env) (fd : ℕ) (buf : ℕ → ℕ) (count : ℕ) (s : ZeroCopy)
    → (write e fd buf count s).0 ≢ failed
    → (good_fd s fd ≡ true) × (writable (s.files fd).flags ≡ true)
unfolding write
write_passed e fd buf count s ok =
    let f = s.files fd in
    let room = not (ltb (0xFFFF_FFFF - count) f.current_offset) in
    elim (Bool-cases (e.allowed && good_fd s fd && writable f.flags && room)) [
      | inl pass ↦ and_parts e.allowed (good_fd s fd) (writable f.flags) room pass
      | inr bad ↦ absurd (ok (simp bad refl))
    ]

seek_back :
    (e : Env) (fd off : ℕ) (s : ZeroCopy)
    → e.allowed ≡ true
    → good_fd s fd ≡ true
    → off ≤ (s.files fd).file_size
    → (seek e fd off 0 s).1 ≡ set_file fd (record (s.files fd) { current_offset = off }) s
unfolding seek
seek_back e fd off s ok good h =
    let inside : ltb (s.files fd).file_size off ≡ false = ground arith in
    simp (ok, good, inside) refl

read_at :
    (e : Env) (fd : ℕ) (buf : ℕ → ℕ) (count : ℕ) (s : ZeroCopy) (f : File)
    → s.files fd ≡ f
    → e.allowed ≡ true
    → good_fd s fd ≡ true
    → readable f.flags ≡ true
    → f.current_offset + count ≤ f.file_size
    → ((read e fd buf count s).0 ≡ count)
      × ((i : ℕ) → i < count → (read e fd buf count s).1 i ≡ f.bytes (f.current_offset + i))
unfolding read
read_at e fd buf count s f at ok good flags room =
    elim (Bool-cases (leb f.file_size f.current_offset)) [
      | inl past ↦
          let nothing : count ≡ 0 = ground arith in
          simp (at, ok, good, flags, past) (omega arith, λ i h. absurd (omega arith))
      | inr before ↦
          let all : min count (f.file_size - f.current_offset) ≡ count = ground arith in
          simp (at, ok, good, flags, before, all)
            (refl, λ i h. copy_to_first buf (λ j. f.bytes (f.current_offset + j)) count i h)
    ]

-- In a state in which every handle lies inside its file, with a buffer unless the file is empty, and
-- both tables are within their bounds: after a write of fewer than 2^32 - 1 bytes that did not answer
-- -1, a seek to where it began and a read of as many bytes, both allowed, give back the bytes that were
-- written.
pub read-seek-write :
    (e e2 e3 : Env) (fd : ℕ) (buf into : ℕ → ℕ) (count : ℕ) (s : ZeroCopy)
    → Sound s
    → count < failed
    → (write e fd buf count s).0 ≢ failed
    → e2.allowed ≡ true
    → e3.allowed ≡ true
    → ((read e3 fd into count
          (seek e2 fd (s.files fd).current_offset 0 (write e fd buf count s).1).1).0
        ≡ count)
      × ((i : ℕ)
          → i < count
          → (read e3 fd into count
                (seek e2 fd (s.files fd).current_offset 0 (write e fd buf count s).1).1).1
              i
            ≡ buf i)
read-seek-write e e2 e3 fd buf into count s h hc ok ok2 ok3 =
    let off = (s.files fd).current_offset in
    let t = (write e fd buf count s).1 in
    let w = write-Wrote e fd buf count s h hc ok in
    let (good, flags) = write_passed e fd buf count s ok in
    let still : good_fd t fd ≡ true = rw w.fds good in
    let g = t.files fd in
    let back : File = record g { current_offset = off } in
    let can_read : readable g.flags ≡ true =
      (readable-writable g.flags).0 ∙ ap writable w.file.flags ∙ flags in
    let r =
      read_at e3 fd into count (set_file fd back t) back (update_self t.files fd back) ok3 still
        can_read (omega (arith, w.file.size)) in
    rw (seek_back e2 fd off t ok2 still (omega (arith, w.file.size)))
      (r.0, λ i hi. r.1 i hi ∙ w.file.new i hi)
