-- ===== src/KernelHeap/Start.antt =====
-- What `init_memory_manager` of src/utilities/util.c leaves.
use eyn_os.Base.{
  ℕ, suc, ◌+◌, ◌^◌, ◌<◌, ◌≤◌, ◌≡◌, refl, true, false, List, [], ◌∷◌, ltb, ◌==◌, if◌then◌else◌, inl,
  inr, Bool-cases, arith, Option, some, length,
}
use eyn_os.UserAccess.{kernel_base}
use eyn_os.KernelHeap.{Heap, heap_size_min, add32, heap_malloc}
use eyn_os.KernelHeap.Tiles.{Seg, Tiles}
use eyn_os.KernelHeap.Malloc.{Served, heap_malloc-Tiles}
use eyn_os.KernelHeap.Spread.{Spread}
use eyn_os.KernelHeap.RoundTrip.{heap_free-Served}
use eyn_os.KernelHeap.Release.{Freed}
use eyn_os.KernelHeap.Setup.{
  Machine, Placed, phys_start, laid_out, trial, with_heap, init_memory_manager,
}
use eyn_os.KernelHeap.Sizes.{chosen_size, chosen_size-le}
use eyn_os.KernelHeap.Small.{heap_malloc-small}

pub laid_out-Tiles :
    (start size : ℕ) (h : Heap)
    → 0x10_0000 ≤ start
    → heap_size_min ≤ size
    → start + size < 2 ^ 32
    → Tiles (laid_out start size h) (record { size = size; used = false } ∷ [])
laid_out-Tiles start size h hs hm hf = record {
  heap = record { start = hs; size = hm; fits = hf };
  first = refl;
  whole = omega arith;
  chain = (record { size = refl; used = refl; next = refl; room = omega arith }, tt);
}

-- A trial that was served leaves the blocks as they were.
trial-Served :
    (f size : ℕ) (h : Heap) (ss : List Seg) (r : ℕ × Heap)
    → Spread ss
    → h.is_initialized ≡ true
    → Served h ss size r
    → suc (length ss) < f
    → Freed true (trial f r) ss
trial-Served f size h ss r apart ready s fuel =
    let nonzero : (r.0 == 0) ≡ false = ground (arith, s.pointer) in
    simp nonzero (heap_free-Served f size h ss r apart ready s fuel)

-- What came of the trial on a heap of one free block.
trial-Tiles :
    (f start size : ℕ) (h : Heap)
    → 0x10_0000 ≤ start
    → heap_size_min ≤ size
    → start + size < 2 ^ 32
    → size ≤ 0x200_0000
    → 2 < f
    → Freed true
        (trial f (heap_malloc 16 (laid_out start size h)))
        (record { size = size; used = false } ∷ [])
trial-Tiles f start size h hs hm hf hx fuel =
    let t = laid_out-Tiles start size h hs hm hf in
    let one : Seg = record { size = size; used = false } in
    elim (heap_malloc-Tiles (laid_out start size h) (one ∷ []) 16 t refl (omega arith)
      (omega arith)) [
        | inl s ↦
            trial-Served f 32 (laid_out start size h) (one ∷ [])
              (heap_malloc 16 (laid_out start size h)) (tt, tt) refl s (omega arith)
        | inr r ↦ absurd (let small = r.full 0 one refl (omega arith) refl in omega arith)
      ]

-- The heap of a `Placed` is set up and consists of one free block of `size` bytes.
pub record Ready (size : ℕ) (r : Option Placed) : Type 0 where
  pub placed : Placed
  pub result : r ≡ some placed
  pub ready : placed.heap.is_initialized ≡ true
  pub tiles : Tiles placed.heap (record { size = size; used = false } ∷ [])

with_heap-Ready :
    (size phys : ℕ) (reserved : List (ℕ × ℕ)) (r : Option Heap)
    → Freed true r (record { size = size; used = false } ∷ [])
    → Ready size (with_heap phys reserved r)
with_heap-Ready size phys reserved r g = record {
  placed = record { heap = g.heap; heap_phys_start = phys; reserved = reserved };
  result = rw g.result refl;
  ready = g.ready;
  tiles = g.tiles;
}

-- The first initialisation, with the boot allocations ending between 1 MB and 768 MB and a chosen size
-- of at least HEAP_SIZE_MIN, ends with a heap in use that is one free block of the chosen size: the
-- trial allocation is served and its release restores the block.
pub init_memory_manager-Ready :
    (f : ℕ) (m : Machine) (p : Placed)
    → p.heap.is_initialized ≡ false
    → p.heap.heap_start ≡ 0
    → p.heap_phys_start ≡ 0
    → 0x10_0000 ≤ m.boot_alloc_end
    → m.boot_alloc_end < 0x3000_0000
    → heap_size_min ≤ chosen_size m
    → 2 < f
    → Ready (chosen_size m) (init_memory_manager f m p)
unfolding init_memory_manager
init_memory_manager-Ready f m p off start phys hb hx hm fuel =
    let at = m.boot_alloc_end in
    let size = chosen_size m in
    let bound = chosen_size-le m in
    let placed : (at == 0) ≡ false = ground arith in
    let high : ltb at 0x10_0000 ≡ false = ground arith in
    let alias : add32 kernel_base at ≡ kernel_base + at = omega arith in
    let tried =
      trial-Tiles f (kernel_base + at) size p.heap (omega arith) hm (omega arith) bound fuel in
    simp (off, phys, start, placed, high, alias)
      (with_heap-Ready size at ((at, add32 at size) ∷ p.reserved)
        (trial f (heap_malloc 16 (laid_out (kernel_base + at) size p.heap))) tried)

-- The heap was not set up.
pub record Unready (r : Option Placed) : Type 0 where
  pub placed : Placed
  pub result : r ≡ some placed
  pub unready : placed.heap.is_initialized ≡ false

trial-Unready :
    (f phys : ℕ) (reserved : List (ℕ × ℕ)) (r : ℕ × Heap)
    → r.0 ≡ 0
    → Unready (with_heap phys reserved (trial f r))
trial-Unready f phys reserved r e = rw e (record {
  placed = record {
    heap = record r.1 { is_initialized = false };
    heap_phys_start = phys;
    reserved = reserved;
  };
  result = refl;
  unready = refl;
})

-- The initialisation with a chosen size below HEAP_SIZE_MIN leaves no heap: the trial allocation is
-- refused, and the manager stays uninitialised.
pub init_memory_manager-Unready :
    (f : ℕ) (m : Machine) (p : Placed)
    → p.heap.is_initialized ≡ false
    → chosen_size m < heap_size_min
    → Unready (init_memory_manager f m p)
unfolding init_memory_manager
init_memory_manager-Unready f m p off hs =
    elim (Bool-cases (ltb (phys_start m p.heap_phys_start) 0x10_0000)) [
      | inl e ↦ simp (off, e) (record { placed = _; result = refl; unready = refl })
      | inr e ↦
          let phys = phys_start m p.heap_phys_start in
          let start =
            if p.heap.heap_start == 0 then add32 kernel_base phys else p.heap.heap_start in
          let h = laid_out start (chosen_size m) p.heap in
          simp (off, e)
            (trial-Unready f phys ((phys, add32 phys (chosen_size m)) ∷ p.reserved)
              (heap_malloc 16 h) (heap_malloc-small h 16 hs (omega arith)))
    ]
