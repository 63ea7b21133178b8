-- ===== src/KernelHeap/Tiles.antt =====
-- The blocks of the heap of src/utilities/util.c as a list: they follow one another from the heap's
-- start to its end, with nothing between them.
use eyn_os.Base.{
  ℕ, ◌+◌, ◌^◌, ◌<◌, ◌≤◌, ◌≡◌, refl, Bool, true, List, [], ◌∷◌, ◌==◌, if◌then◌else◌, update,
  update_ne, arith, Option, none, some, inl, inr, Bool-cases,
}
use eyn_os.KernelHeap.{
  Block, Heap, header_size, heap_size_min, no_block, validate_block, base_ok, place_ok, size_ok,
}

-- A block, its header included.
pub record Seg : Type 0 where
  pub size : ℕ
  pub used : Bool

abbrev pub total : List Seg → ℕ
total [] = 0
total (s ∷ ss) = s.size + total ss

-- The offset of the first of some blocks from `off` on.
abbrev pub link : ℕ → List Seg → ℕ
link off [] = no_block
link off (s ∷ ss) = off

-- The headers from `off` on are those of the list.
pub record Header (b : Block) (off : ℕ) (s : Seg) (ss : List Seg) : Type 0 where
  pub size : b.size ≡ s.size
  pub used : b.used ≡ s.used
  pub next : b.next ≡ link (off + s.size) ss
  pub room : header_size ≤ s.size

abbrev pub Chain : (ℕ → Block) → ℕ → List Seg → Type 0
Chain b off [] = Unit {0}
Chain b off (s ∷ ss) = Header (b off) off s ss × Chain b (off + s.size) ss

-- What the tests of the heap itself ask for, without wrap-around.
pub record IsHeap (h : Heap) : Type 0 where
  pub start : 0x10_0000 ≤ h.heap_start
  pub size : heap_size_min ≤ h.heap_size
  pub fits : h.heap_start + h.heap_size < 2 ^ 32

-- The blocks `ss` tile the heap.
pub record Tiles (h : Heap) (ss : List Seg) : Type 0 where
  pub heap : IsHeap h
  pub first : h.first_block ≡ link 0 ss
  pub whole : total ss ≡ h.heap_size
  pub chain : Chain h.block 0 ss

-- A header below the blocks of a list may change.
pub Chain-below :
    (b : ℕ → Block) (k off : ℕ) (x : Block) (ss : List Seg)
    → k < off
    → Chain b off ss
    → Chain (update b k x) off ss
Chain-below b k off x [] h c = tt
Chain-below b k off x (s ∷ ss) h (here, more) = (
  rw (update_ne b k off x (λ e. omega arith)) here,
  Chain-below b k (off + s.size) x ss (omega arith) more,
)

-- A block in its place passes the validation.
pub validate_block-Chain :
    (h : Heap) (off : ℕ) (s : Seg) (ss : List Seg)
    → IsHeap h
    → off + total (s ∷ ss) ≡ h.heap_size
    → Header (h.block off) off s ss
    → validate_block h off ≡ true
unfolding validate_block
validate_block-Chain h off s ss v e c =
    let base : base_ok h ≡ true = ground (arith, v.start, v.size, v.fits) in
    let place : place_ok h off ≡ true = ground (arith, v.start, v.size, v.fits, c.size, c.room) in
    let size : size_ok h off ≡ true = ground (arith, c.size, c.room) in rw (base, place, size) refl

-- The block that starts at `k`.
abbrev pub seg_at : ℕ → List Seg → ℕ → Option Seg
seg_at off [] k = none
seg_at off (s ∷ ss) k = if off == k then some s else seg_at (off + s.size) ss k

-- Every block has room for its header.
abbrev pub Roomy : List Seg → Type 0
Roomy [] = Unit {0}
Roomy (s ∷ ss) = (header_size ≤ s.size) × Roomy ss

pub Chain-Roomy : (b : ℕ → Block) (off : ℕ) (ss : List Seg) → Chain b off ss → Roomy ss
Chain-Roomy b off [] c = tt
Chain-Roomy b off (s ∷ ss) (here, more) = (here.room, Chain-Roomy b (off + s.size) ss more)

pub seg_at-past :
    (off k : ℕ) (s : Seg) (ss : List Seg)
    → off < k
    → seg_at off (s ∷ ss) k ≡ seg_at (off + s.size) ss k
seg_at-past off k s ss h = ground arith

pub seg_at-bounds :
    (off k : ℕ) (s : Seg) (ss : List Seg)
    → seg_at off ss k ≡ some s
    → (off ≤ k) × (k + s.size ≤ off + total ss)
seg_at-bounds off k s [] e = absurd (ground arith)
seg_at-bounds off k s (t ∷ ts) e = elim (Bool-cases (off == k)) [
  | inl same ↦ ground arith
  | inr other ↦ ground (arith, seg_at-bounds (off + t.size) k s ts)
]

-- The header of the block that starts at `k`.
pub Chain-seg_at :
    (b : ℕ → Block) (off k : ℕ) (s : Seg) (ss : List Seg)
    → Chain b off ss
    → seg_at off ss k ≡ some s
    → ((b k).size ≡ s.size) × ((b k).used ≡ s.used) × (header_size ≤ s.size)
Chain-seg_at b off k s [] c e = absurd (ground arith)
Chain-seg_at b off k s (t ∷ ts) (here, more) e = elim (Bool-cases (off == k)) [
  | inl same ↦
      let place : off ≡ k = ground arith in
      let seg : t ≡ s = ground arith in rw (← place, ← seg) (here.size, here.used, here.room)
  | inr other ↦ Chain-seg_at b (off + t.size) k s ts more (ground arith)
]
