-- ===== src/KernelHeap/Release.antt =====
-- `heap_free` of src/utilities/util.c on a heap whose blocks are a list.
use eyn_os.Base.{
  ℕ, ◌+◌, ◌<◌, ◌≡◌, ◌≢◌, ◌∙◌, refl, sym, subst, Bool, true, false, List, leb, ◌==◌, arith, Option,
  some, length,
}
use eyn_os.KernelHeap.{
  Heap, header_size, add32, set_block, count_error, counted, release, heap_free, merge_loop,
}
use eyn_os.KernelHeap.Mark.{
  validate_block-seg_at, link-freed, length-freed, Chain-freed, not_zero, offset_of_pointer,
}
use eyn_os.KernelHeap.Tiles.{
  Seg, total, link, IsHeap, Tiles, seg_at, seg_at-bounds, Roomy, Chain-Roomy, Chain-seg_at,
}
use eyn_os.KernelHeap.Absorb.{coalesce}
use eyn_os.KernelHeap.Merge.{link-coalesce, Merged, merge_loop-Merged}
use eyn_os.KernelHeap.Spread.{
  Spread, freed, coalesce-seg_at, seg_at-freed, Roomy-freed, total-freed, total-coalesce,
  coalesce-Spread,
}

-- The tests before the release of the block at `k`.
module _ (f k : ℕ) (h : Heap) (ss : List Seg) (s : Seg) (t : Tiles h ss)
    (at : seg_at 0 ss k ≡ some s) where
  block-inside : k < h.heap_size
  block-inside =
      let bs = (seg_at-bounds 0 k s ss at).1 in
      let (sizes, used, room) = Chain-seg_at h.block 0 k s ss t.chain at in omega (arith, t.whole)

  heap_free_releases :
      h.is_initialized ≡ true → heap_free f (h.heap_start + k + header_size) h ≡ release f k h
  unfolding heap_free
  heap_free_releases ready =
      let pointer : (h.heap_start + k + header_size == 0) ≡ false =
        not_zero (h.heap_start + k + header_size) (omega arith) in
      let based : (h.heap_start == 0) ≡ false =
        not_zero h.heap_start (omega (arith, t.heap.start)) in
      let off = offset_of_pointer h k (omega (arith, t.heap.fits, block-inside)) in
      let inside : leb h.heap_size k ≡ false = ground (arith, block-inside) in
      let valid = validate_block-seg_at h 0 k s ss t.heap (omega (arith, t.whole)) t.chain at in
      simp (pointer, ready, based, off, inside, valid) refl

  -- `heap_free` of the pointer to a block that is free already, on an initialised heap whose blocks are
  -- a list, counts an error and changes nothing else.
  pub heap_free_twice :
      h.is_initialized ≡ true
      → s.used ≡ false
      → heap_free f (h.heap_start + k + header_size) h ≡ some (count_error h)
  heap_free_twice ready free =
      let used = (Chain-seg_at h.block 0 k s ss t.chain at).1 in
      heap_free_releases ready ∙ rw (used, free) refl

-- A heap came of it, which the list tiles.
pub record Freed (on : Bool) (r : Option Heap) (ss : List Seg) : Type 0 where
  pub heap : Heap
  pub result : r ≡ some heap
  pub ready : heap.is_initialized ≡ on
  pub tiles : Tiles heap ss

Freed-Merged :
    (h : Heap) (ss : List Seg) (r : Option Heap)
    → IsHeap h
    → h.first_block ≡ link 0 ss
    → total ss ≡ h.heap_size
    → h.is_initialized ≡ true
    → Merged h 0 ss r
    → Freed true (counted r) (coalesce ss)
Freed-Merged h ss r v first e on m =
    let (start, size, first', ready) = m.rest in
    record {
      heap = record m.heap { free_count = add32 m.heap.free_count 1 };
      result = rw m.result refl;
      ready = ready ∙ on;
      tiles = record {
        heap = record {
          start = rw start v.start;
          size = rw size v.size;
          fits = rw (start, size) v.fits;
        };
        first = first' ∙ first ∙ sym (link-coalesce 0 ss);
        whole = total-coalesce ss ∙ e ∙ sym size;
        chain = m.chain;
      };
    }

-- The release of a block in use: it is free afterwards and merged with its free neighbours.
pub heap_free-Tiles :
    (f k : ℕ) (h : Heap) (ss : List Seg) (s : Seg)
    → Tiles h ss
    → h.is_initialized ≡ true
    → seg_at 0 ss k ≡ some s
    → s.used ≡ true
    → length ss < f
    → Freed true (heap_free f (h.heap_start + k + header_size) h) (coalesce (freed 0 k ss))
heap_free-Tiles f k h ss s t ready at live fuel =
    let used = (Chain-seg_at h.block 0 k s ss t.chain at).1 in
    let g : Heap = set_block k (record (h.block k) { used = false }) h in
    let v : IsHeap g = record { start = t.heap.start; size = t.heap.size; fits = t.heap.fits } in
    let first : g.first_block ≡ link 0 (freed 0 k ss) = t.first ∙ sym (link-freed 0 k ss) in
    let whole : total (freed 0 k ss) ≡ g.heap_size = total-freed 0 k ss ∙ t.whole in
    rw (heap_free_releases f k h ss s t at ready, used, live)
      (subst (λ m. Freed true (counted (merge_loop f m g)) (coalesce (freed 0 k ss))) (sym first)
        (Freed-Merged g (freed 0 k ss) (merge_loop f (link 0 (freed 0 k ss)) g) v first whole ready
          (merge_loop-Merged f g 0 (freed 0 k ss) v (omega (arith, whole))
            (Chain-freed h.block 0 k s ss t.chain at) (omega (arith, length-freed 0 k ss)))))

-- The list as it is after a release: no two neighbours are free, and every other block in use stays.
pub freed-Spread :
    (k : ℕ) (ss : List Seg)
    → Roomy ss
    → Spread (coalesce (freed 0 k ss))
      × (total (coalesce (freed 0 k ss)) ≡ total ss)
      × ((j : ℕ) (u : Seg)
          → k ≢ j
          → u.used ≡ true
          → seg_at 0 ss j ≡ some u
          → seg_at 0 (coalesce (freed 0 k ss)) j ≡ some u)
freed-Spread k ss r = (
  coalesce-Spread (freed 0 k ss),
  total-coalesce (freed 0 k ss) ∙ total-freed 0 k ss,
  λ j u ne live e.
      coalesce-seg_at 0 j u (freed 0 k ss) live (Roomy-freed 0 k ss r)
        (seg_at-freed 0 k j u ss ne e),
)

-- `heap_free` of a pointer that was handed out and is in use, on a heap whose blocks are a list: with
-- fuel for the blocks it ends, the blocks tile the heap again, the freed block is merged with its free
-- neighbours so that no two neighbours are free, and every other block in use stays where it was.
pub heap_free_merges :
    (f k : ℕ) (h : Heap) (ss : List Seg) (s : Seg)
    → Tiles h ss
    → h.is_initialized ≡ true
    → seg_at 0 ss k ≡ some s
    → s.used ≡ true
    → length ss < f
    → Freed true (heap_free f (h.heap_start + k + header_size) h) (coalesce (freed 0 k ss))
      × Spread (coalesce (freed 0 k ss))
      × ((j : ℕ) (u : Seg)
          → k ≢ j
          → u.used ≡ true
          → seg_at 0 ss j ≡ some u
          → seg_at 0 (coalesce (freed 0 k ss)) j ≡ some u)
heap_free_merges f k h ss s t ready at live fuel =
    let (spread, whole, kept) = freed-Spread k ss (Chain-Roomy h.block 0 ss t.chain) in
    (heap_free-Tiles f k h ss s t ready at live fuel, spread, kept)
