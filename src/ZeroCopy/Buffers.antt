-- ===== src/ZeroCopy/Buffers.antt =====
-- The buffers of src/utilities/zero_copy.c, in the build without the Rust allocator: created cleared,
-- read and written inside their bounds.
use eyn_os.Base.{
  ℕ, ◌+◌, ◌-◌, ◌<◌, ◌≤◌, ◌≡◌, ◌≢◌, ◌∙◌, refl, Bool, true, false, not, ◌||◌, Option, none, some,
  List, [], ◌∷◌, ltb, ◌==◌, if◌then◌else◌, arith, inl, inr,
}
use eyn_os.ZeroCopy.{failed, copy_to, zeros}
use eyn_os.ZeroCopy.RoundTrip.{copy_to_first, copy_to_new, copy_to_old}

-- `zero_copy_buffer_t`: its buffer's address, its size, the bytes and the mark of a change.
pub record Buffer : Type 0 where
  pub address : ℕ
  pub size : ℕ
  pub dirty : Bool
  pub bytes : ℕ → ℕ

-- `create_zero_copy_buffer`, with the answers of malloc for the record and for the bytes, and the
-- addresses it frees.
unfoldable pub create_buffer : (allowed : Bool) (handle address size : ℕ) → Option Buffer × List ℕ
create_buffer allowed handle address size =
    if not allowed || (handle == 0)
    then (none, [])
    else if address == 0
    then (none, handle ∷ [])
    else (some (record { address = address; size = size; dirty = false; bytes = zeros }), [])

-- `destroy_zero_copy_buffer`: the addresses it frees, of a buffer whose record is at `handle`.
unfoldable pub destroy_buffer : (handle : ℕ) → Buffer → List ℕ
destroy_buffer handle b =
    if handle == 0 then [] else if b.address == 0 then handle ∷ [] else b.address ∷ handle ∷ []

-- `zero_copy_buffer_read`: the result and the caller's bytes.
unfoldable pub buffer_read : Buffer → (content : ℕ → ℕ) → (offset size : ℕ) → ℕ × (ℕ → ℕ)
buffer_read b content offset size =
    if (b.address == 0) || ltb b.size offset || ltb (b.size - offset) size
    then (failed, content)
    else (0, copy_to content 0 (λ i. b.bytes (offset + i)) size)

-- `zero_copy_buffer_write`.
unfoldable pub buffer_write : Buffer → (content : ℕ → ℕ) → (offset size : ℕ) → ℕ × Buffer
buffer_write b content offset size =
    if (b.address == 0) || ltb b.size offset || ltb (b.size - offset) size
    then (failed, b)
    else (0, record b { dirty = true; bytes = copy_to b.bytes offset content size })

-- A write of a range inside a buffer that is there is accepted, a read of the same range then gives
-- what was written, and every byte outside the range is as before.
pub buffer_read-buffer_write :
    (b : Buffer) (content into : ℕ → ℕ) (offset size : ℕ)
    → b.address ≢ 0
    → offset + size ≤ b.size
    → ((buffer_write b content offset size).0 ≡ 0)
      × ((buffer_read (buffer_write b content offset size).1 into offset size).0 ≡ 0)
      × ((i : ℕ)
          → i < size
          → (buffer_read (buffer_write b content offset size).1 into offset size).1 i ≡ content i)
      × ((i : ℕ) → offset + size ≤ i → (buffer_write b content offset size).1.bytes i ≡ b.bytes i)
      × ((i : ℕ) → i < offset → (buffer_write b content offset size).1.bytes i ≡ b.bytes i)
unfolding buffer_read buffer_write
buffer_read-buffer_write b content into offset size there room =
    let present : (b.address == 0) ≡ false = ground arith in
    let starts : ltb b.size offset ≡ false = ground arith in
    let fits : ltb (b.size - offset) size ≡ false = ground arith in
    simp (present, starts, fits)
      (
        refl,
        refl,
        λ i h.
            copy_to_first into (λ j. copy_to b.bytes offset content size (offset + j)) size i h
            ∙ copy_to_new b.bytes content offset size i h,
        λ i h. copy_to_old b.bytes content offset size i (inr h),
        λ i h. copy_to_old b.bytes content offset size i (inl h),
      )
