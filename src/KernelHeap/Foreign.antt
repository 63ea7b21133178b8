-- ===== src/KernelHeap/Foreign.antt =====
-- What malloc, realloc and free of src/utilities/util.c do with the blocks that the slab allocator of
-- src/mm/slab.c serves.
use eyn_os.Base.{
  ℕ, ◌+◌, ◌^◌, ◌<◌, ◌≤◌, ◌≡◌, ◌≢◌, ◌⊎◌, inl, inr, ◌∷◌, refl, sym, ap, subst, ◌∙◌, true, false, leb,
  List, contains, ◌==◌, ==_refl, some, arith,
}
use eyn_os.KernelHeap.{Heap, count_error, offset_of}
use eyn_os.KernelHeap.Tiles.{IsHeap}
use eyn_os.KernelHeap.Setup.{ensure_memory_initialized}
use eyn_os.KernelHeap.Front.{Memory, Answers, slab_freed, set_heap, malloc, realloc, free}
use eyn_os.Slab.{Slabs, Outcome, returned, page_base, page_size, slab_alloc, slab_free, owns}
use eyn_os.Slab.Objects.{class_size, object_end, owns-object}
use eyn_os.Slab.Pool.{View, Pool}
use eyn_os.Slab.Reach.{Reach, Reach-Pool, same_value, same_state}
use eyn_os.Slab.Safety.{slab_alloc-returns, slab_free-twice}

ensure_ready :
    (f : ℕ) (a : Answers) (m : Memory)
    → m.placed.heap.is_initialized ≡ true
    → ensure_memory_initialized f a.machine m.placed ≡ some m.placed
unfolding ensure_memory_initialized
ensure_ready f a m ready = simp ready refl

at_least : (a b : ℕ) → a ≤ b → leb a b ≡ true
at_least a b h = ground arith

-- A page that does not meet the heap.
abbrev pub PageOutside : Heap → (page : ℕ) → Type 0
PageOutside h page = (page + page_size ≤ h.heap_start) ⊎ (h.heap_start + h.heap_size ≤ page)

-- The pointers into such a page, behind its header, are past the heap for realloc.
outside_heap :
    (h : Heap) (page p : ℕ)
    → IsHeap h
    → PageOutside h page
    → page + 20 ≤ p
    → p ≤ page + page_size
    → p < 2 ^ 32
    → leb h.heap_size (offset_of p h) ≡ true
outside_heap h page p v (inl below) low high l =
    at_least h.heap_size (offset_of p h) (omega (arith, v.fits))
outside_heap h page p v (inr above) low high l =
    at_least h.heap_size (offset_of p h) (omega (arith, v.fits))

-- What a successful slab_alloc leaves.
record Given (size p : ℕ) (t : Slabs) (live : List ℕ) : Type 0 where
  asked : size ≢ 0
  held : Reach t (p ∷ live)

slab_alloc-Given :
    (s t : Slabs) (live : List ℕ) (size p : ℕ)
    → Reach s live
    → size < 2 ^ 32
    → slab_alloc size s ≡ (returned p, t)
    → p ≢ 0
    → Given size p t live
slab_alloc-Given s t live size p r small e n =
    let found = slab_alloc-returns s live size r small in
    let same = same_value (slab_alloc size s) found.2 e in
    elim found.3 [
      | inl z ↦ absurd (n (sym same ∙ z.0))
      | inr z ↦ record {
        asked = λ none. z.2 (inr (inl none));
        held =
            subst (λ q. Reach q (p ∷ live)) (same_state (slab_alloc size s) found.2 e)
              (subst (λ q. Reach found.1 (q ∷ live)) same z.3);
      }
    ]

-- Where a held object lies, and that the slab allocator knows it.
record Lies (t : Slabs) (p : ℕ) : Type 0 where
  low : page_base p + 20 ≤ p
  high : p ≤ page_base p + page_size
  small : p < 2 ^ 32
  known : owns t p ≡ true

held-Lies : (t : Slabs) (live : List ℕ) (p : ℕ) → Reach t live → contains live p ≡ true → Lies t p
held-Lies t live p r i = of_view (Reach-Pool r).0 (Reach-Pool r).1
  where
    of_view : (v : View) → Pool t v live → Lies t p
    of_view v h =
        let at = h.held p i in
        let b = page_base p in
        let c = v.class b in
        let ok = h.page b at.slab in
        let e = object_end b (class_size c) at.object.0 p at.object.1 in
        record {
          low = e.0;
          high = omega (arith, e.1);
          small = omega (arith, e.1, ok.addr.below);
          known = owns-object t b c at.object.0 p ok.addr ok.header at.object.1;
        }

-- After any history of slab_alloc and slab_free, with the answers of the slab allocator given to malloc
-- and free: the object `p` that slab_alloc serves for a size below 2^32 is what malloc answers for it;
-- free of it goes to slab_free, which takes it; but realloc of it to any size of at least a byte answers
-- NULL, counts an error and changes nothing else. The command is allowed, the heap is initialised, and
-- the page of the object does not meet it.
pub realloc-slab_alloc :
    (f : ℕ) (a : Answers) (size new_size p : ℕ) (m : Memory) (s t : Slabs) (live : List ℕ)
    → Reach s live
    → size < 2 ^ 32
    → slab_alloc size s ≡ (returned p, t)
    → p ≢ 0
    → a.slab_block ≡ p
    → a.slab_knows ≡ owns t p
    → IsHeap m.placed.heap
    → PageOutside m.placed.heap (page_base p)
    → a.allowed ≡ true
    → m.placed.heap.is_initialized ≡ true
    → 0 < new_size
    → (malloc f a size m ≡ some (p, m))
      × (free f a p m ≡ some (record m { effects = slab_freed p ∷ m.effects }))
      × ((slab_free p t).0 ≡ returned 1)
      × (realloc f a p new_size m ≡ some (0, set_heap (count_error m.placed.heap) m))
unfolding malloc realloc free
realloc-slab_alloc f a size new_size p m s t live r small e n block knows heap page ok ready hn =
    let given = slab_alloc-Given s t live size p r small e n in
    let held : contains (p ∷ live) p ≡ true = simp (==_refl p) refl in
    let lies = held-Lies t (p ∷ live) p given.held held in
    let again = ensure_ready f a m ready in
    let asked : (size == 0) ≡ false = ground (arith, given.asked) in
    let sized : (new_size == 0) ≡ false = ground arith in
    let nonzero : (p == 0) ≡ false = ground arith in
    let outside =
      outside_heap m.placed.heap (page_base p) p heap page lies.low lies.high lies.small in
    let freed = slab_free-twice t (p ∷ live) p given.held held in
    (
      simp (ok, ready, again, asked, block, nonzero) refl,
      simp (ok, nonzero, knows, lies.known) refl,
      ap (λ (x : Outcome × Slabs). x.0) freed.1,
      simp (ok, nonzero, sized, again, outside) refl,
    )
