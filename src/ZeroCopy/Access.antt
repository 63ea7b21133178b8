-- ===== src/ZeroCopy/Access.antt =====
-- What the flags of a zero-copy file of src/utilities/zero_copy.c allow, and what a full table does.
use eyn_os.Base.{ℕ, ◌*◌, ◌/◌, ◌%◌, ◌≡◌, ◌∙◌, not, ◌==◌, arith, bit_and}
use eyn_os.Base.Bits.{bit_and_step, bit_and_zero}
use eyn_os.ZeroCopy.{readable, writable}

one_bit : (x : ℕ) → bit_and x 1 ≡ x % 2
one_bit x = bit_and_step x 1 ∙ rw (bit_and_zero (x / 2) (x / 2) (omega arith)) (omega arith)

high_bit : (x : ℕ) → bit_and x 2 ≡ x / 2 % 2 * 2
high_bit x = bit_and_step x 2 ∙ rw (one_bit (x / 2)) (omega arith)

both_bits : (x : ℕ) → bit_and x 3 ≡ x % 4
both_bits x = bit_and_step x 3 ∙ rw (one_bit (x / 2)) (omega arith)

-- The tests of the flags for reading and for writing are the same test: whether one of the two low bits
-- is set. So a file that was opened for reading only passes the test for writing, and the other way
-- round.
pub readable-writable :
    (flags : ℕ) → (readable flags ≡ writable flags) × (writable flags ≡ not (flags % 4 == 0))
readable-writable flags =
    rw (one_bit flags, high_bit flags, both_bits flags) (ground arith, ground arith)
