-- ===== src/Frames/Bit.antt =====
-- What setting and clearing a bit of the bitmap in src/mm/vmm.c does to every frame.
use eyn_os.Base.{
  ℕ, ◌/◌, ◌%◌, ◌^◌, ◌≡◌, ◌∙◌, refl, false, not, ◌&&◌, ◌||◌, inl, inr, ◌==◌, arith, Bool-cases,
}
use eyn_os.Base.Bits.{
  test_bit-or, test_bit-and, test_bit-pow, test_bit-complement, complement, pow-lt,
}
use eyn_os.Frames.{Frames, frame_set, frame_clear, frame_test}

pub frame_test-set :
    (s : Frames) (n m : ℕ) → frame_test (frame_set n s) m ≡ ((n == m) || frame_test s m)
frame_test-set s n m = elim (Bool-cases (n / 32 == m / 32)) [
  | inl e ↦
      let word : n / 32 ≡ m / 32 = ground arith in
      rw (e, word)
        (test_bit-or (s.bitmap (m / 32)) (2 ^ (n % 32)) (m % 32)
          ∙ ground (arith, test_bit-pow (n % 32) (m % 32)))
  | inr e ↦ let other : (n == m) ≡ false = ground arith in rw (e, other) refl
]

pub frame_test-clear :
    (s : Frames) (n m : ℕ) → frame_test (frame_clear n s) m ≡ (not (n == m) && frame_test s m)
frame_test-clear s n m = elim (Bool-cases (n / 32 == m / 32)) [
  | inl e ↦
      let word : n / 32 ≡ m / 32 = ground arith in
      rw (e, word)
        (test_bit-and (s.bitmap (m / 32)) (complement 32 (2 ^ (n % 32))) (m % 32)
          ∙ ground (
            arith,
            test_bit-pow (n % 32) (m % 32),
            test_bit-complement 32 (2 ^ (n % 32)) (m % 32) (pow-lt (n % 32) 32 (omega arith))
                (omega arith),
          ))
  | inr e ↦ let other : (n == m) ≡ false = ground arith in rw (e, other) refl
]
