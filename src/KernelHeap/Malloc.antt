-- ===== src/KernelHeap/Malloc.antt =====
-- `heap_malloc` of src/utilities/util.c on a heap whose blocks are a list.
use eyn_os.Base.{
  ℕ, zero, suc, ◌+◌, ◌*◌, ◌/◌, ◌%◌, ◌^◌, ◌<◌, ◌≤◌, ◌≡◌, ◌∙◌, refl, sym, ap, subst, true, false,
  List, [], ◌∷◌, ltb, ◌==◌, inl, inr, ◌⊎◌, arith, some, get_elem?, take,
}
use eyn_os.KernelHeap.{
  Heap, header_size, no_block, total_size, max_allocation, allocated, heap_malloc, find_free_block,
  find_loop,
}
use eyn_os.KernelHeap.Tiles.{Seg, total, Tiles, seg_at, seg_at-bounds, Chain-Roomy}
use eyn_os.KernelHeap.Find.{best_fit, Fits, best_fit-Fits, best_fit-least, find_loop-best_fit}
use eyn_os.KernelHeap.Take.{take_block-same, take_block-Tiles}
use eyn_os.KernelHeap.Place.{place}

-- The sizes that are asked for do not wrap.
total_size-bounds :
    (n heap : ℕ)
    → 0 < n
    → n ≤ heap * 9 % 2 ^ 32 / 10
    → (n + header_size ≤ total_size n) × (total_size n < 2 ^ 31)
total_size-bounds n heap h m = let big : n < 2 ^ 29 = omega arith in ground arith

-- A block is served: one of the first 100, free and large enough, no larger than any other of them
-- that is; it is taken, and what is left over is a free block after it.
pub record Served (h : Heap) (ss : List Seg) (size : ℕ) (r : ℕ × Heap) : Type 0 where
  pub offset : ℕ
  pub seg : Seg
  pub index : ℕ
  pub near : index < 100
  pub elem : get_elem? ss index ≡ some seg
  pub place_of : offset ≡ total (take index ss)
  pub at : seg_at 0 ss offset ≡ some seg
  pub free : seg.used ≡ false
  pub enough : size ≤ seg.size
  pub least :
      (i : ℕ) (s : Seg)
      → get_elem? ss i ≡ some s
      → i < 100
      → s.used ≡ false
      → size ≤ s.size
      → seg.size ≤ s.size
  pub pointer : r.0 ≡ h.heap_start + offset + header_size
  pub start : r.1.heap_start ≡ h.heap_start
  pub ready : r.1.is_initialized ≡ h.is_initialized
  pub tiles : Tiles r.1 (place 0 offset size ss)

-- No block is: the heap stays, and none of the first 100 is free and large enough.
pub record Refused (h : Heap) (ss : List Seg) (size : ℕ) (r : ℕ × Heap) : Type 0 where
  pub null : r.0 ≡ 0
  pub same : r.1 ≡ h
  pub full : (i : ℕ) (s : Seg) → get_elem? ss i ≡ some s → i < 100 → s.used ≡ false → s.size < size

-- The choice of the loop, for `size` bytes.
abbrev choice : List Seg → ℕ → ℕ × ℕ
choice ss size = best_fit 100 0 size ss (no_block, 0xFFFF_FFFF)

find_free_block-choice :
    (h : Heap) (ss : List Seg) (size : ℕ)
    → Tiles h ss
    → find_free_block size h ≡ ((choice ss size).0, h)
unfolding find_free_block
find_free_block-choice h ss size t =
    subst (λ k. find_loop 100 h size k (no_block, 0xFFFF_FFFF) ≡ ((choice ss size).0, h))
      (sym t.first)
      (find_loop-best_fit 100 h 0 size ss (no_block, 0xFFFF_FFFF) t.heap (omega (arith, t.whole))
        t.chain)

-- The tests before the search.
heap_malloc_searches :
    (h : Heap) (nbytes : ℕ)
    → h.is_initialized ≡ true
    → 0 < nbytes
    → nbytes ≤ max_allocation h
    → 0 < h.heap_start
    → heap_malloc nbytes h ≡ allocated (total_size nbytes) (find_free_block (total_size nbytes) h)
unfolding heap_malloc
heap_malloc_searches h nbytes ready hn hm hs =
    let nonzero : (nbytes == 0) ≡ false = ground arith in
    let small : ltb (max_allocation h) nbytes ≡ false = ground arith in
    let based : (h.heap_start == 0) ≡ false = ground arith in rw (ready, nonzero, small, based) refl

-- What the choice of a block is worth.
served :
    (h : Heap) (ss : List Seg) (size : ℕ) (best : ℕ × ℕ)
    → Tiles h ss
    → header_size ≤ size
    → size < 2 ^ 31
    → ((i : ℕ) (s : Seg)
        → get_elem? ss i ≡ some s
        → i < 100
        → s.used ≡ false
        → size ≤ s.size
        → best.1 ≤ s.size)
    → Fits 100 0 size ss best.0 best.1
    → Served h ss size (allocated size (best.0, h))
served h ss size best t hs hb least f =
    let bs = (seg_at-bounds 0 best.0 f.seg ss f.at).1 in
    let near : best.0 + header_size ≤ h.heap_size = omega (arith, bs, t.whole, f.enough) in
    let found : (best.0 == no_block) ≡ false = ground (arith, t.heap.fits) in
    rw found (record {
      offset = best.0;
      seg = f.seg;
      index = f.index;
      near = f.near;
      elem = f.elem;
      place_of = omega (arith, f.place);
      at = f.at;
      free = f.free;
      enough = f.enough;
      least = λ i s e hi hu hz. omega (arith, least i s e hi hu hz, f.measure);
      pointer = ground (arith, t.heap.fits);
      start = (take_block-same h best.0 size).0;
      ready = (take_block-same h best.0 size).3;
      tiles = take_block-Tiles h ss best.0 size f.seg t hs hb f.at f.enough;
    })

-- A block of a list is no larger than all of them.
get_elem?-total : (i : ℕ) (s : Seg) (ss : List Seg) → get_elem? ss i ≡ some s → s.size ≤ total ss
get_elem?-total i s [] e = absurd (ground arith)
get_elem?-total zero s (t ∷ ts) e = ground arith
get_elem?-total (suc i) s (t ∷ ts) e = omega (arith, get_elem?-total i s ts e)

refused :
    (h : Heap) (ss : List Seg) (size : ℕ) (best : ℕ × ℕ)
    → Tiles h ss
    → ((i : ℕ) (s : Seg)
        → get_elem? ss i ≡ some s
        → i < 100
        → s.used ≡ false
        → size ≤ s.size
        → best.1 ≤ s.size)
    → best ≡ (no_block, 0xFFFF_FFFF)
    → Refused h ss size (allocated size (best.0, h))
refused h ss size best t least e =
    let none_found : (best.0 == no_block) ≡ true = rw (ap (λ (p : ℕ × ℕ). p.0) e) refl in
    let huge : best.1 ≡ 0xFFFF_FFFF = ap (λ (p : ℕ × ℕ). p.1) e in
    rw none_found (record {
      null = refl;
      same = refl;
      full = λ i s ei hi hu.
          let inside = get_elem?-total i s ss ei in
          let far : size ≤ s.size → best.1 ≤ s.size = least i s ei hi hu in
          ground (arith, far, inside, t.whole, t.heap.fits, t.heap.start, huge);
    })

-- `heap_malloc` on an initialised heap whose blocks are a list, for 1 byte up to nine tenths of the heap:
-- either it serves a free block of at least the size with its header, the smallest such among the first
-- 100, takes it and leaves what is over as a free block after it, so that the blocks tile the heap
-- again, or it answers NULL, changes nothing, and none of the first 100 is free and large enough.
pub heap_malloc-Tiles :
    (h : Heap) (ss : List Seg) (nbytes : ℕ)
    → Tiles h ss
    → h.is_initialized ≡ true
    → 0 < nbytes
    → nbytes ≤ max_allocation h
    → Served h ss (total_size nbytes) (heap_malloc nbytes h)
      ⊎ Refused h ss (total_size nbytes) (heap_malloc nbytes h)
heap_malloc-Tiles h ss nbytes t ready hn hm =
    subst (λ r. Served h ss (total_size nbytes) r ⊎ Refused h ss (total_size nbytes) r)
      (sym (
        heap_malloc_searches h nbytes ready hn hm (omega (arith, t.heap.start))
        ∙ ap (allocated (total_size nbytes)) (find_free_block-choice h ss (total_size nbytes) t)))
      (allocated-choice h ss (total_size nbytes) t (total_size-bounds nbytes h.heap_size hn hm))
  where
    allocated-choice :
        (h : Heap) (ss : List Seg) (size : ℕ)
        → Tiles h ss
        → (nbytes + header_size ≤ size) × (size < 2 ^ 31)
        → Served h ss size (allocated size ((choice ss size).0, h))
          ⊎ Refused h ss size (allocated size ((choice ss size).0, h))
    allocated-choice h ss size t bs =
        let least : (i : ℕ) (s : Seg)
            → get_elem? ss i ≡ some s
            → i < 100
            → s.used ≡ false
            → size ≤ s.size
            → (choice ss size).1 ≤ s.size =
          λ i s e hi hu hz. best_fit-least 100 0 size i ss (no_block, 0xFFFF_FFFF) s e hi hu hz in
        elim (best_fit-Fits 100 0 size ss (no_block, 0xFFFF_FFFF)
          (Chain-Roomy h.block 0 ss t.chain)) [
            | inl old ↦ inr (refused h ss size (choice ss size) t least old)
            | inr f ↦ inl (served h ss size (choice ss size) t (omega (arith, bs.0)) bs.1 least f)
          ]
