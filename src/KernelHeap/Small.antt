-- ===== src/KernelHeap/Small.antt =====
-- The kernel heap of src/utilities/util.c below HEAP_SIZE_MIN bytes.
use eyn_os.Base.{
  ℕ, suc, ◌<◌, ◌≡◌, ◌∙◌, refl, ap, false, not, ltb, ◌==◌, inl, inr, ◌⊎◌, Bool-cases, arith,
}
use eyn_os.KernelHeap.{
  Heap, heap_size_min, no_block, heap_malloc, find_free_block, find_loop, validate_block, base_ok,
  count_error, max_allocation, total_size, allocated,
}

-- A heap below HEAP_SIZE_MIN serves nothing: the validation refuses its first block.
small_heap_find :
    (n : ℕ) (h : Heap) (size k : ℕ) (best : ℕ × ℕ)
    → h.heap_size < heap_size_min
    → k < no_block
    → find_loop (suc n) h size k best ≡ (no_block, count_error h)
unfolding find_loop validate_block
small_heap_find n h size k best hs hk =
    let here : (k == no_block) ≡ false = ground arith in
    let base : base_ok h ≡ false = ground arith in rw (here, base) refl

-- It either answers NULL at once or searches.
heap_malloc-cases :
    (h : Heap) (nbytes : ℕ)
    → (heap_malloc nbytes h ≡ (0, h))
      ⊎ (heap_malloc nbytes h
          ≡ allocated (total_size nbytes) (find_free_block (total_size nbytes) h))
unfolding heap_malloc
heap_malloc-cases h nbytes = elim (Bool-cases (not h.is_initialized)) [
  | inl e ↦ inl (simp e refl)
  | inr e ↦ elim (Bool-cases (nbytes == 0)) [
    | inl e' ↦ inl (simp (e, e') refl)
    | inr e' ↦ elim (Bool-cases (ltb (max_allocation h) nbytes)) [
      | inl c ↦ inl (simp (e, e', c) refl)
      | inr c ↦ elim (Bool-cases (h.heap_start == 0)) [
        | inl d ↦ inl (simp (e, e', c, d) refl)
        | inr d ↦ inr (simp (e, e', c, d) refl)
      ]
    ]
  ]
]

pub heap_malloc-small :
    (h : Heap) (nbytes : ℕ)
    → h.heap_size < heap_size_min
    → h.first_block < no_block
    → (heap_malloc nbytes h).0 ≡ 0
unfolding find_free_block
heap_malloc-small h nbytes hs hf = elim (heap_malloc-cases h nbytes) [
  | inl e ↦ ap (λ (r : ℕ × Heap). r.0) e
  | inr e ↦
      ap (λ (r : ℕ × Heap). r.0) e
      ∙ ap (λ (r : ℕ × Heap). (allocated (total_size nbytes) r).0)
          (small_heap_find 99 h (total_size nbytes) h.first_block (no_block, 0xFFFF_FFFF) hs hf)
]
