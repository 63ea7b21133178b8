-- ===== src/KernelHeap/Mark.antt =====
-- Marking a block free in `heap_free` of src/utilities/util.c: the headers afterwards, and the tests
-- that a pointer which was handed out passes.
use eyn_os.Base.{
  ℕ, suc, ◌+◌, ◌^◌, ◌<◌, ◌≡◌, ◌∙◌, refl, sym, ap, subst, true, false, List, [], ◌∷◌, ◌==◌, inl, inr,
  Bool-cases, arith, some, update, update_self, update_ne, length,
}
use eyn_os.KernelHeap.{Block, Heap, header_size, offset_of, validate_block}
use eyn_os.KernelHeap.Tiles.{
  Seg, total, link, Chain, Chain-below, IsHeap, seg_at, seg_at-bounds, validate_block-Chain,
}
use eyn_os.KernelHeap.Spread.{freed}

-- A live block passes the validation.
pub validate_block-seg_at :
    (h : Heap) (off k : ℕ) (s : Seg) (ss : List Seg)
    → IsHeap h
    → off + total ss ≡ h.heap_size
    → Chain h.block off ss
    → seg_at off ss k ≡ some s
    → validate_block h k ≡ true
validate_block-seg_at h off k s [] v e c at = absurd (ground arith)
validate_block-seg_at h off k s (t ∷ ts) v e (here, more) at = elim (Bool-cases (off == k)) [
  | inl same ↦
      let place : off ≡ k = ground arith in
      subst (λ m. validate_block h m ≡ true) place (validate_block-Chain h off t ts v e here)
  | inr other ↦ validate_block-seg_at h (off + t.size) k s ts v (omega arith) more (ground arith)
]

pub link-freed : (off k : ℕ) (ss : List Seg) → link off (freed off k ss) ≡ link off ss
link-freed off k [] = refl
link-freed off k (s ∷ ss) = ground arith

pub length-freed : (off k : ℕ) (ss : List Seg) → length (freed off k ss) ≡ length ss
length-freed off k [] = refl
length-freed off k (s ∷ ss) = elim (Bool-cases (off == k)) [
  | inl same ↦ rw same refl
  | inr other ↦ rw other (ap suc (length-freed (off + s.size) k ss))
]

-- The headers after the block at `k` is marked free.
pub Chain-freed :
    (b : ℕ → Block) (off k : ℕ) (s : Seg) (ss : List Seg)
    → Chain b off ss
    → seg_at off ss k ≡ some s
    → Chain (update b k (record (b k) { used = false })) off (freed off k ss)
Chain-freed b off k s [] c e = absurd (ground arith)
Chain-freed b off k s (t ∷ ts) (here, more) e = elim (Bool-cases (off == k)) [
  | inl same ↦
      let at : off ≡ k = ground arith in
      rw same (
        subst
          (λ m.
            Chain (update b m (record (b m) { used = false })) off (record t { used = false } ∷ ts))
          at
          (
            rw (update_self b off (record (b off) { used = false }))
                (record { size = here.size; used = refl; next = here.next; room = here.room }),
            Chain-below b off (off + t.size) (record (b off) { used = false }) ts
                (omega (arith, here.room)) more,
          ))
  | inr other ↦
      let e' : seg_at (off + t.size) ts k ≡ some s = ground arith in
      let low = (seg_at-bounds (off + t.size) k s ts e').0 in
      rw other (
        rw (update_ne b k off (record (b k) { used = false }) (λ c. omega (arith, here.room)))
            (record {
              size = here.size;
              used = here.used;
              next = here.next ∙ sym (link-freed (off + t.size) k ts);
              room = here.room;
            }),
        Chain-freed b (off + t.size) k s ts more e',
      )
]

pub not_zero : (n : ℕ) → 0 < n → (n == 0) ≡ false
not_zero n h = ground arith

pub offset_of_pointer :
    (h : Heap) (k : ℕ) → k < 2 ^ 32 → offset_of (h.heap_start + k + header_size) h ≡ k
offset_of_pointer h k e = omega arith
