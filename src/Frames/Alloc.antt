-- ===== src/Frames/Alloc.antt =====
-- `frame_alloc` and `frame_free` of src/mm/vmm.c.
use eyn_os.Base.{
  ℕ, zero, suc, ◌+◌, ◌*◌, ◌/◌, ◌%◌, ◌^◌, ◌<◌, ◌≤◌, ◌≡◌, ◌∙◌, refl, sym, ap, subst, true, false, not,
  ◌&&◌, ◌||◌, some, inl, inr, leb, ltb, ◌==◌, ==_iff, ==_refl, arith, Bool-cases, Option-cases,
}
use eyn_os.Base.Loop.{find_from, find_from-some}
use eyn_os.Frames.{
  Frames, Allocated, granted, page_size, frame_test, is_free_bit, free_bit, word_at, total_words,
  or_next, find_free, take_frame, frame_alloc, frame_free, give_back,
}
use eyn_os.Frames.Bit.{frame_test-set, frame_test-clear}

free_bit-some :
    (s : Frames) (w b : ℕ) → free_bit s w ≡ some b → (b < 32) × (is_free_bit s w b ≡ true)
free_bit-some s w b e = elim (Bool-cases (s.bitmap w == 0xFFFF_FFFF)) [
  | inl full ↦ absurd (ground arith)
  | inr more ↦
      let found : find_from 32 0 (is_free_bit s w) ≡ some b = ground arith in
      let (low, high, free) = find_from-some 32 0 (is_free_bit s w) b found in (omega arith, free)
]

find_free-some :
    (n i : ℕ) (s : Frames) (w b : ℕ)
    → find_free n i s ≡ some (w, b)
    → (b < 32) × (is_free_bit s w b ≡ true)
unfolding find_free
find_free-some zero i s w b e = absurd (ground arith)
find_free-some (suc n) i s w b e = elim (Option-cases (free_bit s (word_at s i))) [
  | inl no_bit ↦
      find_free-some n (i + 1) s w b
        (subst (λ o. or_next (word_at s i) o (find_free n (i + 1) s) ≡ some (w, b)) no_bit e)
  | inr (c, h) ↦
      let same : some (word_at s i, c) ≡ some (w, b) =
        subst (λ o. or_next (word_at s i) o (find_free n (i + 1) s) ≡ some (w, b)) h e in
      let (low, free) = free_bit-some s (word_at s i) c h in ground arith
]

-- `t` is `s` with the frame at `phys_addr` taken.
pub record Taken (s t : Frames) (phys_addr : ℕ) : Type 0 where
  pub frame : ℕ
  pub address : phys_addr ≡ frame * page_size
  pub in_range : frame < s.total_frames
  pub was_free : frame_test s frame ≡ false
  pub marks : (m : ℕ) → frame_test t m ≡ ((frame == m) || frame_test s m)
  pub count : t.free_frames + 1 ≡ s.free_frames
  pub total : t.total_frames ≡ s.total_frames

module _ (s : Frames) (w b : ℕ) where
  frame_alloc_found :
      (s.free_frames == 0) ≡ false
      → find_free (total_words s) 0 s ≡ some (w, b)
      → frame_alloc s ≡ take_frame s (some (w, b))
  unfolding frame_alloc
  frame_alloc_found e f = ground arith

  take_frame-Taken :
      (s.free_frames == 0) ≡ false
      → b < 32
      → is_free_bit s w b ≡ true
      → Taken s (take_frame s (some (w, b))).1 ((w * 32 + b) * page_size)
  take_frame-Taken e low free =
      let n = w * 32 + b in
      let word : n / 32 ≡ w = omega arith in
      let bit : n % 32 ≡ b = omega arith in
      record {
        frame = n;
        address = refl;
        in_range = ground arith;
        was_free = rw (word, bit) (ground arith);
        marks = λ m. frame_test-set s n m;
        count = ground arith;
        total = refl;
      }

address_of : {a b : ℕ} → granted a ≡ granted b → a ≡ b
address_of e = ground arith

-- A frame above the first megabyte that is used is given back.
frees :
    (phys_addr : ℕ) (t : Frames) (n : ℕ)
    → phys_addr / page_size ≡ n
    → 256 ≤ n
    → n < t.total_frames
    → frame_test t n ≡ true
    → frame_free phys_addr t ≡ give_back n t
unfolding frame_free
frees phys_addr t n e low high used =
    let above : ltb n 256 ≡ false = ground arith in
    let inside : leb t.total_frames n ≡ false = ground arith in
    rw (e, above) (simp (inside, used) refl)

mended :
    (s t : Frames) (n m : ℕ)
    → frame_test t m ≡ ((n == m) || frame_test s m)
    → frame_test s n ≡ false
    → (not (n == m) && frame_test t m) ≡ frame_test s m
mended s t n m e free = elim (Bool-cases (n == m)) [
  | inl same ↦ let here : n ≡ m = (==_iff n m).0 same in rw same (sym free ∙ ap (frame_test s) here)
  | inr other ↦ rw other (e ∙ rw other refl)
]

-- A frame that is granted was free and lies in the detected memory; afterwards it is used, every other
-- frame is as before, and one frame less is free. The memory has at most 32768 frames.
pub frame_alloc-Taken :
    (s t : Frames) (phys_addr : ℕ)
    → s.total_frames ≤ 32768
    → frame_alloc s ≡ (granted phys_addr, t)
    → Taken s t phys_addr
unfolding frame_alloc
frame_alloc-Taken s t phys_addr small e = elim (Bool-cases (s.free_frames == 0)) [
  | inl none_free ↦ absurd (ground arith)
  | inr some_free ↦ elim (Option-cases (find_free (total_words s) 0 s)) [
    | inl none_found ↦ absurd (ground arith)
    | inr ((w, b), found) ↦
        let (low, free) = find_free-some (total_words s) 0 s w b found in
        let taken : take_frame s (some (w, b)) ≡ (granted phys_addr, t) =
          sym (frame_alloc_found s w b some_free found) ∙ e in
        let here = take_frame-Taken s w b some_free low free in
        let address : (w * 32 + b) * page_size % 2 ^ 32 ≡ phys_addr =
          address_of (ap (λ (p : Allocated × Frames). p.0) taken) in
        let whole : (w * 32 + b) * page_size ≡ phys_addr = omega (arith, here.in_range) in
        subst (λ a. Taken s t a) whole
          (subst (λ (u : Frames). Taken s u ((w * 32 + b) * page_size))
            (ap (λ (p : Allocated × Frames). p.1) taken) here)
  ]
]

-- Giving back a frame that was just granted, above the first megabyte, restores the mark of every
-- frame and the count.
pub frame_free-frame_alloc :
    (s t : Frames) (phys_addr : ℕ)
    → s.total_frames ≤ 32768
    → s.free_frames ≤ 32768
    → frame_alloc s ≡ (granted phys_addr, t)
    → 0x10_0000 ≤ phys_addr
    → ((m : ℕ) → frame_test (frame_free phys_addr t) m ≡ frame_test s m)
      × ((frame_free phys_addr t).free_frames ≡ s.free_frames)
frame_free-frame_alloc s t phys_addr small few e high =
    let k = frame_alloc-Taken s t phys_addr small e in
    let frame : phys_addr / page_size ≡ k.frame = omega (arith, k.address) in
    let used : frame_test t k.frame ≡ true = k.marks k.frame ∙ ground (arith, ==_refl k.frame) in
    let back : frame_free phys_addr t ≡ give_back k.frame t =
      frees phys_addr t k.frame frame (omega (arith, k.address))
        (omega (arith, k.in_range, k.total)) used in
    (
      λ m. rw back (frame_test-clear t k.frame m ∙ mended s t k.frame m (k.marks m) k.was_free),
      rw back (omega (arith, k.count)),
    )
