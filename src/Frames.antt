-- ===== src/Frames.antt =====
-- The physical frame allocator of src/mm/vmm.c: one bit for each frame of 4096 bytes, 1 for used.
pub mod Bit
pub mod Alloc
pub mod Reserve
pub mod Contiguous
use eyn_os.Base.{
  ℕ, zero, suc, ◌+◌, ◌*◌, ◌/◌, ◌%◌, ◌-◌, ◌^◌, Bool, true, false, not, ◌&&◌, ◌||◌, Option, none,
  some, leb, ltb, bit_and, bit_or, ◌==◌, if◌then◌else◌, update,
}
use eyn_os.Base.Bits.{test_bit, complement}
use eyn_os.Base.Loop.{find_from}

abbrev pub page_size : ℕ
page_size = 4096

-- `frame_allocator_t`.
pub record Frames : Type 0 where
  pub bitmap : ℕ → ℕ
  pub total_frames : ℕ
  pub free_frames : ℕ
  pub search_hint : ℕ

abbrev pub frame_set : ℕ → Frames → Frames
frame_set n s = record s {
  bitmap = update s.bitmap (n / 32) (bit_or (s.bitmap (n / 32)) (2 ^ (n % 32)));
}

abbrev pub frame_clear : ℕ → Frames → Frames
frame_clear n s = record s {
  bitmap = update s.bitmap (n / 32) (bit_and (s.bitmap (n / 32)) (complement 32 (2 ^ (n % 32))));
}

abbrev pub frame_test : Frames → ℕ → Bool
frame_test s n = test_bit (s.bitmap (n / 32)) (n % 32)

-- What ends the function: the call of clock_evict_page, whose result it returns, 0, or an address.
pub data Allocated : Type 0 where
  evicts : Allocated
  out_of_memory : Allocated
  granted : (phys_addr : ℕ) → Allocated

abbrev pub is_free_bit : Frames → (word_idx bit : ℕ) → Bool
is_free_bit s word_idx bit =
    not (test_bit (s.bitmap word_idx) bit) && not (leb s.total_frames (word_idx * 32 + bit))

-- The loop over the bits of a word that is not full.
abbrev pub free_bit : Frames → ℕ → Option ℕ
free_bit s word_idx =
    if s.bitmap word_idx == 0xFFFF_FFFF then none else find_from 32 0 (is_free_bit s word_idx)

abbrev pub total_words : Frames → ℕ
total_words s = s.total_frames / 32

abbrev pub word_at : Frames → ℕ → ℕ
word_at s i = (s.search_hint + i) % 2 ^ 32 % total_words s

-- The words from the `i`-th on, of `n`: the first free frame.
abbrev pub or_next : ℕ → Option ℕ → Option (ℕ × ℕ) → Option (ℕ × ℕ)
or_next word_idx (some bit) next = some (word_idx, bit)
or_next word_idx none next = next

unfoldable pub find_free : ℕ → ℕ → Frames → Option (ℕ × ℕ)
find_free zero i s = none
find_free (suc n) i s = or_next (word_at s i) (free_bit s (word_at s i)) (find_free n (i + 1) s)

abbrev pub take_frame : Frames → Option (ℕ × ℕ) → Allocated × Frames
take_frame s none = (out_of_memory, s)
take_frame s (some (word_idx, bit)) =
    let t = frame_set (word_idx * 32 + bit) s in
    (
      granted ((word_idx * 32 + bit) * page_size % 2 ^ 32),
      record t { free_frames = s.free_frames - 1; search_hint = word_idx },
    )

unfoldable pub frame_alloc : Frames → Allocated × Frames
frame_alloc s =
    if s.free_frames == 0 then (evicts, s) else take_frame s (find_free (total_words s) 0 s)

abbrev pub give_back : ℕ → Frames → Frames
give_back n s =
    let t = frame_clear n s in
    record t {
      free_frames = (s.free_frames + 1) % 2 ^ 32;
      search_hint = if ltb (n / 32) s.search_hint then n / 32 else s.search_hint;
    }

unfoldable pub frame_free : ℕ → Frames → Frames
frame_free phys_addr s =
    let n = phys_addr / page_size in
    if ltb n 256 || leb s.total_frames n then s else if frame_test s n then give_back n s else s
