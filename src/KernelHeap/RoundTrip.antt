-- ===== src/KernelHeap/RoundTrip.antt =====
-- `heap_free` after `heap_malloc`, of src/utilities/util.c.
use eyn_os.Base.{
  ℕ, suc, ◌+◌, ◌<◌, ◌≤◌, ◌≡◌, ◌∙◌, refl, subst, true, List, [], ◌∷◌, ltb, ◌==◌, inl, inr, ◌⊎◌,
  Bool-cases, arith, some, length,
}
use eyn_os.KernelHeap.{
  Heap, header_size, min_block_size, heap_free, heap_malloc, max_allocation, total_size,
}
use eyn_os.KernelHeap.Tiles.{Seg, Tiles, seg_at}
use eyn_os.KernelHeap.Place.{place}
use eyn_os.KernelHeap.Absorb.{coalesce}
use eyn_os.KernelHeap.Malloc.{Served, heap_malloc-Tiles}
use eyn_os.KernelHeap.Spread.{Spread, freed, coalesce_done, coalesce-freed}
use eyn_os.KernelHeap.Release.{Freed, heap_free-Tiles}

-- The block that was taken, in the list after it.
pub record Live (off k : ℕ) (ss : List Seg) : Type 0 where
  pub seg : Seg
  pub at : seg_at off ss k ≡ some seg
  pub live : seg.used ≡ true

place-Live :
    (off k size : ℕ) (s : Seg) (ss : List Seg)
    → seg_at off ss k ≡ some s
    → Live off k (place off k size ss)
place-Live off k size s [] e = absurd (ground arith)
place-Live off k size s (t ∷ ts) e = elim (Bool-cases (off == k)) [
  | inl same ↦ rw same (elim (Bool-cases (ltb t.size (size + header_size + min_block_size))) [
    | inl small ↦
        rw small (record { seg = record t { used = true }; at = rw same refl; live = refl })
    | inr large ↦
        rw large
          (record { seg = record { size = size; used = true }; at = rw same refl; live = refl })
  ])
  | inr other ↦
      let l = place-Live (off + t.size) k size s ts (ground arith) in
      rw other (record { seg = l.seg; at = rw other l.at; live = l.live })
]

length-place : (off k size : ℕ) (ss : List Seg) → length (place off k size ss) ≤ suc (length ss)
length-place off k size [] = omega arith
length-place off k size (t ∷ ts) = elim (Bool-cases (off == k)) [
  | inl same ↦ rw same (elim (Bool-cases (ltb t.size (size + header_size + min_block_size))) [
    | inl small ↦ rw small (omega arith)
    | inr large ↦ rw large (omega arith)
  ])
  | inr other ↦ rw other (let l = length-place (off + t.size) k size ts in omega arith)
]

-- A block that is released right after it was served leaves the heap's blocks as they were.
pub heap_free-Served :
    (f size : ℕ) (h : Heap) (ss : List Seg) (r : ℕ × Heap)
    → Spread ss
    → h.is_initialized ≡ true
    → Served h ss size r
    → suc (length ss) < f
    → Freed true (heap_free f r.0 r.1) ss
heap_free-Served f size h ss r apart ready s fuel =
    let l = place-Live 0 s.offset size s.seg ss s.at in
    let back : coalesce (freed 0 s.offset (place 0 s.offset size ss)) ≡ ss =
      coalesce-freed s.offset size s.seg s.free s.enough 0 ss s.at ∙ coalesce_done ss apart in
    subst (λ x. Freed true (heap_free f r.0 r.1) x) back
      (rw (s.pointer, ← s.start)
        (heap_free-Tiles f s.offset r.1 (place 0 s.offset size ss) l.seg s.tiles (s.ready ∙ ready)
          l.at l.live (let n = length-place 0 s.offset size ss in omega arith)))

-- A block that `heap_malloc` served for an allowed size, on an initialised heap without free
-- neighbours, can be freed at once: with fuel for the blocks `heap_free` ends and the heap's blocks are
-- as before. Otherwise `heap_malloc` answered NULL.
pub heap_free-heap_malloc :
    (f nbytes : ℕ) (h : Heap) (ss : List Seg)
    → Tiles h ss
    → Spread ss
    → h.is_initialized ≡ true
    → 0 < nbytes
    → nbytes ≤ max_allocation h
    → suc (length ss) < f
    → (heap_malloc nbytes h ≡ (0, h))
      ⊎ Freed true (heap_free f (heap_malloc nbytes h).0 (heap_malloc nbytes h).1) ss
heap_free-heap_malloc f nbytes h ss t apart ready hn hm fuel =
    elim (heap_malloc-Tiles h ss nbytes t ready hn hm) [
      | inl s ↦
          inr
            (heap_free-Served f (total_size nbytes) h ss (heap_malloc nbytes h) apart ready s fuel)
      | inr r ↦ inl (cc)
    ]
