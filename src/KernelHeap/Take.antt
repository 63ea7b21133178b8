-- ===== src/KernelHeap/Take.antt =====
-- Taking a block in `heap_malloc` of src/utilities/util.c keeps the heap a list of blocks.
use eyn_os.Base.{
  ℕ, ◌+◌, ◌-◌, ◌%◌, ◌^◌, ◌<◌, ◌≤◌, ◌≡◌, ◌∙◌, refl, sym, subst, true, false, List, ltb, ◌==◌, inl,
  inr, Bool-cases, arith, some, update, update_self,
}
use eyn_os.KernelHeap.{
  Heap, header_size, min_block_size, magic_number, add32, split_block, take_block,
}
use eyn_os.KernelHeap.Tiles.{Seg, Chain, Tiles, seg_at, seg_at-bounds, Chain-seg_at}
use eyn_os.KernelHeap.Place.{
  place, link-place, total-place, whole, parted, Chain-whole, Chain-parted,
}

-- The heap with the block at `k` split for `size` bytes, no arithmetic wrapping.
take_block-whole :
    (h : Heap) (k size : ℕ)
    → size < 2 ^ 31
    → ltb (h.block k).size (size + header_size + min_block_size) ≡ true
    → (take_block k size h).block ≡ whole h.block k
unfolding split_block
take_block-whole h k size hs e =
    let wide : add32 (add32 size header_size) min_block_size ≡ size + header_size + min_block_size =
      ground arith in
    rw (update_self h.block k (record (h.block k) { used = true; magic = magic_number }), wide, e)
      refl

take_block-parted :
    (h : Heap) (k size : ℕ)
    → 0 < size
    → k + (h.block k).size < 2 ^ 32
    → size < 2 ^ 31
    → ltb (h.block k).size (size + header_size + min_block_size) ≡ false
    → (take_block k size h).block ≡ parted h.block k size
unfolding split_block
take_block-parted h k size hs hk hb e =
    let wide : add32 (add32 size header_size) min_block_size ≡ size + header_size + min_block_size =
      ground arith in
    let rest : ((h.block k).size + 2 ^ 32 - size) % 2 ^ 32 ≡ (h.block k).size - size =
      ground arith in
    let next : add32 k size ≡ k + size = ground arith in
    let later : (k + size == k) ≡ false = ground arith in
    rw
      (
        update_self h.block k (record (h.block k) { used = true; magic = magic_number }),
        wide,
        e,
        rest,
        next,
        later,
      )
      refl

-- Where the heap lies stays.
pub take_block-same :
    (h : Heap) (k size : ℕ)
    → ((take_block k size h).heap_start ≡ h.heap_start)
      × ((take_block k size h).heap_size ≡ h.heap_size)
      × ((take_block k size h).first_block ≡ h.first_block)
      × ((take_block k size h).is_initialized ≡ h.is_initialized)
unfolding split_block
take_block-same h k size =
    let t =
      ltb (update h.block k (record (h.block k) { used = true; magic = magic_number }) k).size
        (add32 (add32 size header_size) min_block_size) in
    elim (Bool-cases t) [
      | inl e ↦ rw e (refl, refl, refl, refl)
      | inr e ↦ rw e (refl, refl, refl, refl)
    ]

take_block-Chain :
    (h : Heap) (ss : List Seg) (k size : ℕ) (s : Seg)
    → Tiles h ss
    → header_size ≤ size
    → size < 2 ^ 31
    → seg_at 0 ss k ≡ some s
    → Chain (take_block k size h).block 0 (place 0 k size ss)
take_block-Chain h ss k size s t hs hb e =
    let bs = seg_at-bounds 0 k s ss e in
    let measure = (Chain-seg_at h.block 0 k s ss t.chain e).0 in
    elim (Bool-cases (ltb s.size (size + header_size + min_block_size))) [
      | inl small ↦
          subst (λ b. Chain b 0 (place 0 k size ss))
            (sym (take_block-whole h k size hb (rw measure small)))
            (Chain-whole k size hs h.block 0 s ss t.chain e small)
      | inr large ↦
          subst (λ b. Chain b 0 (place 0 k size ss))
            (sym (
              take_block-parted h k size (omega arith)
                (rw measure (omega (arith, bs.1, t.whole, t.heap.fits))) hb (rw measure large)))
            (Chain-parted k size hs h.block 0 s ss t.chain e large)
    ]

pub take_block-Tiles :
    (h : Heap) (ss : List Seg) (k size : ℕ) (s : Seg)
    → Tiles h ss
    → header_size ≤ size
    → size < 2 ^ 31
    → seg_at 0 ss k ≡ some s
    → size ≤ s.size
    → Tiles (take_block k size h) (place 0 k size ss)
take_block-Tiles h ss k size s t hs hb e enough =
    let (start, len, first, ready) = take_block-same h k size in
    record {
      heap = record {
        start = rw start t.heap.start;
        size = rw len t.heap.size;
        fits = rw (start, len) t.heap.fits;
      };
      first = first ∙ t.first ∙ sym (link-place 0 k size ss);
      whole = total-place 0 k size s ss e enough ∙ t.whole ∙ sym len;
      chain = take_block-Chain h ss k size s t hs hb e;
    }
