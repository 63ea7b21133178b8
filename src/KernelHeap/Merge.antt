-- ===== src/KernelHeap/Merge.antt =====
-- `merge_free_blocks` of src/utilities/util.c: neighbours that are both free become one block.
use eyn_os.Base.{
  ℕ, zero, suc, ◌+◌, ◌<◌, ◌≤◌, ◌≡◌, ◌∙◌, refl, sym, not, ◌&&◌, List, [], ◌∷◌, inl, inr, Bool-cases,
  arith, Option, some, length,
}
use eyn_os.KernelHeap.{Heap, Absorbed, absorb_loop, after_absorb, merge_loop}
use eyn_os.KernelHeap.Absorb.{
  grown, after, coalesce, absorb-grown, total-grown, Grown, not_no_block, absorb_loop-Grown,
}
use eyn_os.KernelHeap.Tiles.{Seg, total, link, Chain, IsHeap, validate_block-Chain}

-- What the outer loop leaves.
pub record Merged (h : Heap) (off : ℕ) (ss : List Seg) (r : Option Heap) : Type 0 where
  pub heap : Heap
  pub result : r ≡ some heap
  pub rest :
      (heap.heap_start ≡ h.heap_start)
      × (heap.heap_size ≡ h.heap_size)
      × (heap.first_block ≡ h.first_block)
      × (heap.is_initialized ≡ h.is_initialized)
  pub chain : Chain heap.block off (coalesce ss)
  pub below : (k : ℕ) → k < off → heap.block k ≡ h.block k

pub link-coalesce : (off : ℕ) (ss : List Seg) → link off (coalesce ss) ≡ link off ss
link-coalesce off [] = refl
link-coalesce off (s ∷ ss) = rw (absorb-grown s ss) refl

length-after : (s : Seg) (ss : List Seg) → length (after s ss) ≤ length ss
length-after s [] = omega arith
length-after s (t ∷ ts) = elim (Bool-cases (not s.used && not t.used)) [
  | inl e ↦
      rw e
        (let l = length-after (record { size = s.size + t.size; used = s.used }) ts in omega arith)
  | inr e ↦ rw e (omega arith)
]

-- One round of the outer loop, then the rest of it.
Merged-Grown :
    (h : Heap) (off : ℕ) (s : Seg) (ss : List Seg) (f : ℕ) (r : Absorbed)
    → (g : Grown h off s ss r)
    → Merged g.heap
        (off + (grown s ss).size)
        (after s ss)
        (merge_loop f (link (off + (grown s ss).size) (after s ss)) g.heap)
    → Merged h off (s ∷ ss) (after_absorb off r (λ t k. merge_loop f k t))
Merged-Grown h off s ss f r g m =
    let (start, size, first, ready) = m.rest in
    let (start', size', first', ready') = g.rest in
    record {
      heap = m.heap;
      result = rw (g.result, g.here.next) m.result;
      rest = (start ∙ start', size ∙ size', first ∙ first', ready ∙ ready');
      chain = rw (absorb-grown s ss) (
        rw (m.below off (omega (arith, g.here.room))) (record {
          size = g.here.size;
          used = g.here.used;
          next = g.here.next ∙ sym (link-coalesce (off + (grown s ss).size) (after s ss));
          room = g.here.room;
        }),
        m.chain,
      );
      below = λ k hk. m.below k (omega (arith, hk)) ∙ g.below k hk;
    }

pub merge_loop-Merged :
    (f : ℕ) (h : Heap) (off : ℕ) (ss : List Seg)
    → IsHeap h
    → off + total ss ≡ h.heap_size
    → Chain h.block off ss
    → length ss < f
    → Merged h off ss (merge_loop f (link off ss) h)
unfolding merge_loop
merge_loop-Merged zero h off ss v e c hf = absurd (omega arith)
merge_loop-Merged (suc f) h off [] v e c hf = record {
  heap = h;
  result = refl;
  rest = (refl, refl, refl, refl);
  chain = tt;
  below = λ k hk. refl;
}
merge_loop-Merged (suc f) h off (s ∷ ss) v e c hf =
    let g = absorb_loop-Grown (suc f) h off s ss v e c (omega arith) in
    let (start, size, first, ready) = g.rest in
    let valid = validate_block-Chain h off s ss v e c.0 in
    let not_end = not_no_block off (omega (arith, v.fits, v.start, e)) in
    let same = total-grown s ss in
    rw (not_end, valid)
      (Merged-Grown h off s ss f (absorb_loop (suc f) off h) g (
        merge_loop-Merged f g.heap (off + (grown s ss).size) (after s ss)
          (record {
            start = rw start v.start;
            size = rw size v.size;
            fits = rw (start, size) v.fits;
          })
          (rw size (omega (arith, same, e))) g.more (let l = length-after s ss in omega arith)))
