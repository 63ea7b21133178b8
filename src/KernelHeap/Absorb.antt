-- ===== src/KernelHeap/Absorb.antt =====
-- The inner loop of `merge_free_blocks` of src/utilities/util.c: a free block takes in the free blocks
-- behind it.
use eyn_os.Base.{
  ℕ, zero, suc, ◌+◌, ◌^◌, ◌<◌, ◌≡◌, ◌∙◌, refl, sym, ap, subst, true, false, not, ◌&&◌, List, [],
  ◌∷◌, ◌==◌, if◌then◌else◌, inl, inr, Bool-cases, arith, update, update_self, length,
}
use eyn_os.KernelHeap.{
  Block, Heap, no_block, add32, Absorbed, goes_on, join_next, join_or_break, absorb_loop,
}
use eyn_os.KernelHeap.Tiles.{
  Seg, total, link, Header, Chain, Chain-below, IsHeap, validate_block-Chain,
}

-- The block with those after it that are free, while it is free, and what comes after them.
abbrev pub grown : Seg → List Seg → Seg
grown s [] = s
grown s (t ∷ ts) =
    if not s.used && not t.used
    then grown (record { size = s.size + t.size; used = s.used }) ts
    else s

abbrev pub after : Seg → List Seg → List Seg
after s [] = []
after s (t ∷ ts) =
    if not s.used && not t.used
    then after (record { size = s.size + t.size; used = s.used }) ts
    else t ∷ ts

abbrev pub absorb : Seg → List Seg → List Seg
absorb s [] = s ∷ []
absorb s (t ∷ ts) =
    if not s.used && not t.used
    then absorb (record { size = s.size + t.size; used = s.used }) ts
    else s ∷ absorb t ts

-- The list with every run of free blocks made one block.
abbrev pub coalesce : List Seg → List Seg
coalesce [] = []
coalesce (s ∷ ss) = absorb s ss

pub absorb-grown : (s : Seg) (ss : List Seg) → absorb s ss ≡ grown s ss ∷ coalesce (after s ss)
absorb-grown s [] = refl
absorb-grown s (t ∷ ts) = elim (Bool-cases (not s.used && not t.used)) [
  | inl e ↦ rw e (absorb-grown (record { size = s.size + t.size; used = s.used }) ts)
  | inr e ↦ rw e refl
]

pub total-grown :
    (s : Seg) (ss : List Seg) → (grown s ss).size + total (after s ss) ≡ s.size + total ss
total-grown s [] = refl
total-grown s (t ∷ ts) = elim (Bool-cases (not s.used && not t.used)) [
  | inl e ↦ rw e (total-grown (record { size = s.size + t.size; used = s.used }) ts ∙ omega arith)
  | inr e ↦ rw e refl
]

-- What the inner loop leaves: the block at `off` grown, the headers after it as they were.
pub record Grown (h : Heap) (off : ℕ) (s : Seg) (ss : List Seg) (r : Absorbed) : Type 0 where
  pub heap : Heap
  pub result : r ≡ goes_on heap
  pub rest :
      (heap.heap_start ≡ h.heap_start)
      × (heap.heap_size ≡ h.heap_size)
      × (heap.first_block ≡ h.first_block)
      × (heap.is_initialized ≡ h.is_initialized)
  pub here : Header (heap.block off) off (grown s ss) (after s ss)
  pub more : Chain heap.block (off + (grown s ss).size) (after s ss)
  pub below : (k : ℕ) → k < off → heap.block k ≡ h.block k

pub not_no_block : (k : ℕ) → k < no_block → (k == no_block) ≡ false
not_no_block k h = ground arith

-- One round of the inner loop.
absorb_loop_joins :
    (f : ℕ) (h : Heap) (off : ℕ) (s t : Seg) (ts : List Seg)
    → IsHeap h
    → off + total (s ∷ t ∷ ts) ≡ h.heap_size
    → Chain h.block off (s ∷ t ∷ ts)
    → absorb_loop (suc f) off h ≡ join_or_break (not s.used && not t.used) off h (absorb_loop f off)
unfolding absorb_loop
absorb_loop_joins f h off s t ts v e (here, (next, more)) =
    let valid = validate_block-Chain h (off + s.size) t ts v (omega (arith, e)) next in
    let not_end : (off + s.size == no_block) ≡ false =
      not_no_block (off + s.size) (omega (arith, v.fits, v.start, e)) in
    rw (here.next, not_end, valid, here.next, here.used, next.used) refl

join_next-Chain :
    (h : Heap) (off : ℕ) (s t : Seg) (ts : List Seg)
    → off + s.size + t.size < 2 ^ 32
    → Chain h.block off (s ∷ t ∷ ts)
    → Chain (join_next off h).block off (record { size = s.size + t.size; used = s.used } ∷ ts)
join_next-Chain h off s t ts b (here, (next, more)) =
    let joined : Block = record (h.block off) {
      size = add32 s.size t.size;
      next = (h.block (off + s.size)).next;
    } in
    let block_at : (join_next off h).block ≡ update h.block off joined =
      rw (here.next, here.size, next.size) refl in
    let end : off + s.size + t.size ≡ off + (s.size + t.size) = omega arith in
    subst (λ b. Chain b off (record { size = s.size + t.size; used = s.used } ∷ ts)) (sym block_at)
      (
        rw (update_self h.block off joined) (record {
          size = ground arith;
          used = here.used;
          next = next.next ∙ ap (λ (m : ℕ). link m ts) end;
          room = omega (arith, here.room);
        }),
        Chain-below h.block off (off + (s.size + t.size)) joined ts (omega (arith, here.room))
            (subst (λ m. Chain h.block m ts) end more),
      )

-- The blocks that follow are not joined.
Grown-stop :
    (h : Heap) (off : ℕ) (s : Seg) (ss : List Seg)
    → grown s ss ≡ s
    → after s ss ≡ ss
    → Chain h.block off (s ∷ ss)
    → Grown h off s ss (goes_on h)
Grown-stop h off s ss eg ea (here, more) = record {
  heap = h;
  result = refl;
  rest = (refl, refl, refl, refl);
  here = rw (eg, ea) here;
  more = rw (eg, ea) more;
  below = λ k hk. refl;
}

join_next-below : (h : Heap) (off k : ℕ) → k < off → (join_next off h).block k ≡ h.block k
join_next-below h off k hk = ground arith

Grown-joined :
    (h : Heap) (off : ℕ) (s t : Seg) (ts : List Seg) (r : Absorbed)
    → (not s.used && not t.used) ≡ true
    → Grown (join_next off h) off (record { size = s.size + t.size; used = s.used }) ts r
    → Grown h off s (t ∷ ts) r
Grown-joined h off s t ts r both g = record {
  heap = g.heap;
  result = g.result;
  rest = g.rest;
  here = rw both g.here;
  more = rw both g.more;
  below = λ k hk. g.below k hk ∙ join_next-below h off k hk;
}

absorb_loop_last :
    (f off : ℕ) (h : Heap) → (h.block off).next ≡ no_block → absorb_loop (suc f) off h ≡ goes_on h
unfolding absorb_loop
absorb_loop_last f off h e = rw e refl

pub absorb_loop-Grown :
    (f : ℕ) (h : Heap) (off : ℕ) (s : Seg) (ss : List Seg)
    → IsHeap h
    → off + total (s ∷ ss) ≡ h.heap_size
    → Chain h.block off (s ∷ ss)
    → length ss < f
    → Grown h off s ss (absorb_loop f off h)
absorb_loop-Grown zero h off s ss v e c hf = absurd (omega arith)
absorb_loop-Grown (suc f) h off s [] v e c hf =
    rw (absorb_loop_last f off h c.0.next) (Grown-stop h off s [] refl refl c)
absorb_loop-Grown (suc f) h off s (t ∷ ts) v e c hf =
    rw (absorb_loop_joins f h off s t ts v e c) elim (Bool-cases (not s.used && not t.used)) [
      | inl both ↦
          Grown-joined h off s t ts
            (join_or_break (not s.used && not t.used) off h (absorb_loop f off)) both
            (rw both (
              absorb_loop-Grown f (join_next off h) off
                (record { size = s.size + t.size; used = s.used }) ts
                (record { start = v.start; size = v.size; fits = v.fits }) (omega arith)
                (join_next-Chain h off s t ts (omega (arith, v.fits)) c) (omega arith)))
      | inr one ↦ rw one (Grown-stop h off s (t ∷ ts) (rw one refl) (rw one refl) c)
    ]
