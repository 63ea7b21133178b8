-- ===== src/KernelHeap/Sizes.antt =====
-- The size that `calculate_optimal_heap_size` and the clamp of `init_memory_manager`, in
-- src/utilities/util.c, choose.
use eyn_os.Base.{
  ℕ, ◌+◌, ◌-◌, ◌*◌, ◌/◌, ◌%◌, ◌^◌, ◌<◌, ◌≤◌, ◌≡◌, refl, false, ltb, ◌==◌, inl, inr, ◌⊎◌, Bool-cases,
  arith,
}
use eyn_os.KernelHeap.{heap_size_min}
use eyn_os.KernelHeap.Setup.{
  Machine, heap_size_max, heap_phys_reserve_bytes, by_memory, at_most, capped, raised, heap_cap,
  fitted, at_least_min, calculate_optimal_heap_size, clamp_heap_size,
}

-- The size that is chosen.
abbrev pub chosen_size : Machine → ℕ
chosen_size m = clamp_heap_size m.free_frames (calculate_optimal_heap_size m.available_ram)

by_memory-bounds : (ram : ℕ) → (heap_size_min ≤ by_memory ram) × (by_memory ram ≤ 0x200_0000)
by_memory-bounds ram = ground arith

at_most-le : (cap n : ℕ) → (at_most cap n ≤ cap) × (at_most cap n ≤ n)
at_most-le cap n = ground arith

capped-le : (ram size : ℕ) → capped ram size ≤ size
capped-le ram size = ground (arith, at_most-le (ram / 2) size, at_most-le (ram / 4) size)

raised-bounds :
    (size : ℕ)
    → (heap_size_min ≤ raised size)
      × ((most : ℕ) → heap_size_min ≤ most → size ≤ most → raised size ≤ most)
raised-bounds size = (ground arith, λ most h l. ground arith)

pub calculate_optimal_heap_size-bounds :
    (ram : ℕ)
    → (heap_size_min ≤ calculate_optimal_heap_size ram)
      × (calculate_optimal_heap_size ram ≤ 0x200_0000)
unfolding calculate_optimal_heap_size
calculate_optimal_heap_size-bounds ram =
    let b = by_memory-bounds ram in
    let c = capped-le ram (by_memory ram) in
    let r = raised-bounds (capped ram (by_memory ram)) in
    (r.0, r.1 0x200_0000 (omega arith) (omega arith))

at_least_min-cases :
    (free_bytes size : ℕ)
    → (at_least_min free_bytes size ≡ size)
      ⊎ ((at_least_min free_bytes size ≡ heap_size_min)
          × (heap_phys_reserve_bytes + heap_size_min < free_bytes))
at_least_min-cases free_bytes size = ground arith

at_least_min-le :
    (free_bytes size most : ℕ)
    → size ≤ most
    → heap_size_min ≤ most
    → at_least_min free_bytes size ≤ most
at_least_min-le free_bytes size most h l = ground arith

-- A size that the free bytes allow.
Allowed : (free_bytes size : ℕ) → Type 0
Allowed free_bytes size =
    (size ≤ heap_size_max) × (size + heap_phys_reserve_bytes ≤ free_bytes) × (size % 4096 ≡ 0)

heap_cap-fits :
    (free_bytes : ℕ)
    → heap_phys_reserve_bytes + 4096 ≤ free_bytes
    → heap_cap free_bytes ≡ free_bytes - heap_phys_reserve_bytes
heap_cap-fits free_bytes h = ground arith

fitted-le : (cap size : ℕ) → 4096 ≤ cap → fitted cap size ≤ cap
fitted-le cap size h = ground (arith, at_most-le cap size)

at_most_paged : (n : ℕ) → at_most heap_size_max (n / 4096 * 4096) % 4096 ≡ 0
at_most_paged n = elim (Bool-cases (ltb heap_size_max (n / 4096 * 4096))) [
  | inl e ↦ rw e refl
  | inr e ↦ rw e (omega arith)
]

below_cap :
    (a f c b : ℕ)
    → a ≤ f / 4096 * 4096
    → f ≤ c
    → c ≡ b - heap_phys_reserve_bytes
    → heap_phys_reserve_bytes ≤ b
    → a + heap_phys_reserve_bytes ≤ b
below_cap a f c b ha hf hc hb = omega arith

paged-bounds :
    (free_bytes size : ℕ)
    → heap_phys_reserve_bytes + 4096 ≤ free_bytes
    → Allowed free_bytes (at_most heap_size_max (fitted (heap_cap free_bytes) size / 4096 * 4096))
unfolding Allowed
paged-bounds free_bytes size h =
    let cap = heap_cap-fits free_bytes h in
    let fit = fitted-le (heap_cap free_bytes) size (omega arith) in
    let most = at_most-le heap_size_max (fitted (heap_cap free_bytes) size / 4096 * 4096) in
    (
      most.0,
      below_cap (at_most heap_size_max (fitted (heap_cap free_bytes) size / 4096 * 4096))
          (fitted (heap_cap free_bytes) size) (heap_cap free_bytes) free_bytes most.1 fit cap
          (omega arith),
      at_most_paged (fitted (heap_cap free_bytes) size),
    )

at_least_min-bounds :
    (free_bytes size : ℕ)
    → Allowed free_bytes size
    → Allowed free_bytes (at_least_min free_bytes size)
unfolding Allowed
at_least_min-bounds free_bytes size a = elim (at_least_min-cases free_bytes size) [
  | inl same ↦ rw same a
  | inr (least, room) ↦ rw least (omega arith, omega arith, refl)
]

-- The heap's size when some frames are free, their bytes fit 32 bits and more than a page is left above
-- the reserve: it is a number of whole pages, at most HEAP_SIZE_MAX, and leaves the reserve free.
pub clamp_heap_size-bounds :
    (free size : ℕ)
    → 0 < free
    → free * 4096 < 2 ^ 32
    → heap_phys_reserve_bytes + 4096 ≤ free * 4096
    → (clamp_heap_size free size ≤ heap_size_max)
      × (clamp_heap_size free size + heap_phys_reserve_bytes ≤ free * 4096)
      × (clamp_heap_size free size % 4096 ≡ 0)
unfolding clamp_heap_size Allowed
clamp_heap_size-bounds free size hf hw hr =
    let nonzero : (free == 0) ≡ false = ground arith in
    let bytes : free * 4096 % 2 ^ 32 ≡ free * 4096 = omega arith in
    rw (nonzero, bytes)
      (at_least_min-bounds (free * 4096)
        (at_most heap_size_max (fitted (heap_cap (free * 4096)) size / 4096 * 4096))
        (paged-bounds (free * 4096) size hr))

clamp_heap_size-le : (free size : ℕ) → size ≤ 0x200_0000 → clamp_heap_size free size ≤ 0x200_0000
unfolding clamp_heap_size
clamp_heap_size-le free size h = elim (Bool-cases (free == 0)) [
  | inl e ↦ rw e h
  | inr e ↦
      let bytes = free * 4096 % 2 ^ 32 in
      let n = fitted (heap_cap bytes) size / 4096 * 4096 in
      let most = (at_most-le heap_size_max n).0 in
      rw e (at_least_min-le bytes (at_most heap_size_max n) 0x200_0000 (omega arith) (omega arith))
]

pub chosen_size-le : (m : Machine) → chosen_size m ≤ 0x200_0000
chosen_size-le m =
    clamp_heap_size-le m.free_frames (calculate_optimal_heap_size m.available_ram)
      (calculate_optimal_heap_size-bounds m.available_ram).1
