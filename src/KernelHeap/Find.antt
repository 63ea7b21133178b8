-- ===== src/KernelHeap/Find.antt =====
-- The block that `find_free_block` of src/utilities/util.c chooses.
use eyn_os.Base.{
  ℕ, zero, suc, ◌+◌, ◌<◌, ◌≤◌, ◌≡◌, ◌∙◌, refl, ap, false, not, ◌&&◌, List, [], ◌∷◌, ltb, leb, ◌==◌,
  if◌then◌else◌, inl, inr, ◌⊎◌, Bool-cases, arith, some, get_elem?, take,
}
use eyn_os.KernelHeap.{Heap, header_size, no_block, find_loop}
use eyn_os.KernelHeap.Tiles.{
  Seg, total, link, Chain, Roomy, seg_at, seg_at-past, seg_at-bounds, IsHeap, validate_block-Chain,
}

-- The first of the smallest free blocks that are large enough, among the first `n`.
unfoldable pub best_fit : (n off size : ℕ) → List Seg → ℕ × ℕ → ℕ × ℕ
best_fit zero off size ss best = best
best_fit (suc n) off size [] best = best
best_fit (suc n) off size (s ∷ ss) best =
    best_fit n (off + s.size) size ss
      (if not s.used && leb size s.size && ltb s.size best.1 then (off, s.size) else best)

pub find_loop-best_fit :
    (n : ℕ) (h : Heap) (off size : ℕ) (ss : List Seg) (best : ℕ × ℕ)
    → IsHeap h
    → off + total ss ≡ h.heap_size
    → Chain h.block off ss
    → find_loop n h size (link off ss) best ≡ ((best_fit n off size ss best).0, h)
unfolding find_loop best_fit
find_loop-best_fit zero h off size ss best v e c = refl
find_loop-best_fit (suc n) h off size [] best v e c = refl
find_loop-best_fit (suc n) h off size (s ∷ ss) best v e (here, more) =
    let valid = validate_block-Chain h off s ss v e here in
    let not_end : (off == no_block) ≡ false = ground (arith, v.fits, here.room) in
    rw (not_end, valid, here.next, here.size, here.used)
      (find_loop-best_fit n h (off + s.size) size ss
        (if not s.used && leb size s.size && ltb s.size best.1 then (off, s.size) else best) v
        (omega arith) more)

-- A free block of the list that is large enough, among the first `limit`.
pub record Fits (limit off size : ℕ) (ss : List Seg) (k n : ℕ) : Type 0 where
  pub seg : Seg
  pub index : ℕ
  pub near : index < limit
  pub elem : get_elem? ss index ≡ some seg
  pub place : k ≡ off + total (take index ss)
  pub at : seg_at off ss k ≡ some seg
  pub free : seg.used ≡ false
  pub enough : size ≤ seg.size
  pub measure : n ≡ seg.size

Fits-cons :
    (limit off size : ℕ) (s : Seg) (ss : List Seg) (k n : ℕ)
    → header_size ≤ s.size
    → Fits limit (off + s.size) size ss k n
    → Fits (suc limit) off size (s ∷ ss) k n
Fits-cons limit off size s ss k n h f =
    let low = (seg_at-bounds (off + s.size) k f.seg ss f.at).0 in
    record {
      seg = f.seg;
      index = suc f.index;
      near = omega (arith, f.near);
      elem = f.elem;
      place = omega (arith, f.place);
      at = seg_at-past off k s ss (omega arith) ∙ f.at;
      free = f.free;
      enough = f.enough;
      measure = f.measure;
    }

-- Whether the block at `off` becomes the choice.
abbrev pub chosen : (off size : ℕ) → Seg → ℕ × ℕ → ℕ × ℕ
chosen off size s best =
    if not s.used && leb size s.size && ltb s.size best.1 then (off, s.size) else best

Chosen : (off size : ℕ) → Seg → (best now : ℕ × ℕ) → Type 0
Chosen off size s best now =
    (now ≡ best) ⊎ ((now ≡ (off, s.size)) × (s.used ≡ false) × (size ≤ s.size))

chosen-Chosen :
    (off size : ℕ) (s : Seg) (best : ℕ × ℕ) → Chosen off size s best (chosen off size s best)
unfolding Chosen
chosen-Chosen off size s best =
    elim (Bool-cases (not s.used && leb size s.size && ltb s.size best.1)) [
      | inl e ↦ inr (rw e refl, ground arith, ground arith)
      | inr e ↦ inl (rw e refl)
    ]

Fits-Chosen :
    (limit off size : ℕ) (s : Seg) (ss : List Seg) (best now r : ℕ × ℕ)
    → header_size ≤ s.size
    → Chosen off size s best now
    → (r ≡ now) ⊎ Fits limit (off + s.size) size ss r.0 r.1
    → (r ≡ best) ⊎ Fits (suc limit) off size (s ∷ ss) r.0 r.1
unfolding Chosen
Fits-Chosen limit off size s ss best now r room c (inr f) =
    inr (Fits-cons limit off size s ss r.0 r.1 room f)
Fits-Chosen limit off size s ss best now r room (inl old) (inl e) = inl (e ∙ old)
Fits-Chosen limit off size s ss best now r room (inr (new, free, enough)) (inl e) =
    let place : r.0 ≡ off = ap (λ (p : ℕ × ℕ). p.0) (e ∙ new) in
    inr (record {
      seg = s;
      index = 0;
      near = omega arith;
      elem = refl;
      place = omega arith;
      at = ground arith;
      free = free;
      enough = enough;
      measure = ap (λ (p : ℕ × ℕ). p.1) (e ∙ new);
    })

-- The choice is the one that was given, or a block of the list.
pub best_fit-Fits :
    (n off size : ℕ) (ss : List Seg) (best : ℕ × ℕ)
    → Roomy ss
    → (best_fit n off size ss best ≡ best)
      ⊎ Fits n off size ss (best_fit n off size ss best).0 (best_fit n off size ss best).1
unfolding best_fit
best_fit-Fits zero off size ss best r = inl refl
best_fit-Fits (suc n) off size [] best r = inl refl
best_fit-Fits (suc n) off size (s ∷ ss) best (room, more) =
    Fits-Chosen n off size s ss best (chosen off size s best)
      (best_fit (suc n) off size (s ∷ ss) best) room (chosen-Chosen off size s best)
      (best_fit-Fits n (off + s.size) size ss (chosen off size s best) more)

-- It is no larger than the one that was given, nor than any free block, among the first `n`, that is
-- large enough.
pub best_fit-le :
    (n off size : ℕ) (ss : List Seg) (best : ℕ × ℕ) → (best_fit n off size ss best).1 ≤ best.1
unfolding best_fit
best_fit-le zero off size ss best = omega arith
best_fit-le (suc n) off size [] best = omega arith
best_fit-le (suc n) off size (s ∷ ss) best =
    let ih = best_fit-le n (off + s.size) size ss (chosen off size s best) in
    let now : (chosen off size s best).1 ≤ best.1 = ground arith in omega arith

pub best_fit-least :
    (n off size i : ℕ) (ss : List Seg) (best : ℕ × ℕ) (s : Seg)
    → get_elem? ss i ≡ some s
    → i < n
    → s.used ≡ false
    → size ≤ s.size
    → (best_fit n off size ss best).1 ≤ s.size
unfolding best_fit
best_fit-least zero off size i ss best s e hi hu hs = absurd (omega arith)
best_fit-least (suc n) off size i [] best s e hi hu hs = absurd (ground arith)
best_fit-least (suc n) off size zero (t ∷ ts) best s e hi hu hs =
    let later = best_fit-le n (off + t.size) size ts (chosen off size t best) in
    let now : (chosen off size t best).1 ≤ s.size = ground arith in omega arith
best_fit-least (suc n) off size (suc i) (t ∷ ts) best s e hi hu hs =
    best_fit-least n (off + t.size) size i ts (chosen off size t best) s e (omega arith) hu hs
