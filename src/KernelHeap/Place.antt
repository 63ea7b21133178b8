-- ===== src/KernelHeap/Place.antt =====
-- Taking a block of the heap of src/utilities/util.c, and splitting what is left over.
use eyn_os.Base.{
  ℕ, ◌+◌, ◌-◌, ◌≤◌, ◌≡◌, ◌∙◌, refl, sym, ap, subst, true, false, List, [], ◌∷◌, ltb, ◌==◌,
  if◌then◌else◌, inl, inr, Bool-cases, arith, some, update, update_self, update_ne,
}
use eyn_os.KernelHeap.{Block, header_size, min_block_size, magic_number}
use eyn_os.KernelHeap.Tiles.{Seg, total, link, Header, Chain, Chain-below, seg_at, seg_at-bounds}

-- A free block taken for `size` bytes.
abbrev pub taken : Seg → ℕ → List Seg → List Seg
taken s size ss =
    if ltb s.size (size + header_size + min_block_size)
    then record s { used = true } ∷ ss
    else record { size = size; used = true } ∷ record { size = s.size - size; used = false } ∷ ss

-- The list with the block at `k` taken.
abbrev pub place : (off k size : ℕ) → List Seg → List Seg
place off k size [] = []
place off k size (s ∷ ss) = if off == k then taken s size ss else s ∷ place (off + s.size) k size ss

pub link-place : (off k size : ℕ) (ss : List Seg) → link off (place off k size ss) ≡ link off ss
link-place off k size [] = refl
link-place off k size (s ∷ ss) = ground arith

pub total-place :
    (off k size : ℕ) (s : Seg) (ss : List Seg)
    → seg_at off ss k ≡ some s
    → size ≤ s.size
    → total (place off k size ss) ≡ total ss
total-place off k size s [] e h = refl
total-place off k size s (t ∷ ts) e h = elim (Bool-cases (off == k)) [
  | inl same ↦ rw same (ground arith)
  | inr other ↦ rw other (ground (arith, total-place (off + t.size) k size s ts))
]

-- The headers after the block at `k`, which has `x` for its header, was taken.
abbrev pub whole : (ℕ → Block) → ℕ → ℕ → Block
whole b k = update b k (record (b k) { used = true; magic = magic_number })

abbrev pub parted : (ℕ → Block) → (k size : ℕ) → ℕ → Block
parted b k size =
    update
      (update (whole b k) (k + size) (record {
        size = (b k).size - size;
        used = false;
        next = (b k).next;
        magic = magic_number;
      }))
      k (record { size = size; used = true; next = k + size; magic = magic_number })

-- The block at the head of a chain is taken.
taken-whole :
    (b : ℕ → Block) (off size : ℕ) (s : Seg) (ss : List Seg)
    → Header (b off) off s ss
    → Chain b (off + s.size) ss
    → ltb s.size (size + header_size + min_block_size) ≡ true
    → Chain (whole b off) off (taken s size ss)
taken-whole b off size s ss here more small = rw small (
  rw (update_self b off (record (b off) { used = true; magic = magic_number }))
      (record { size = here.size; used = refl; next = here.next; room = here.room }),
  Chain-below b off (off + s.size) (record (b off) { used = true; magic = magic_number }) ss
      (omega (arith, here.room)) more,
)

taken-parted :
    (b : ℕ → Block) (off size : ℕ) (s : Seg) (ss : List Seg)
    → header_size ≤ size
    → Header (b off) off s ss
    → Chain b (off + s.size) ss
    → ltb s.size (size + header_size + min_block_size) ≡ false
    → Chain (parted b off size) off (taken s size ss)
taken-parted b off size s ss hs here more large =
    let first : Block = record {
      size = size;
      used = true;
      next = off + size;
      magic = magic_number;
    } in
    let rest : Block = record {
      size = (b off).size - size;
      used = false;
      next = (b off).next;
      magic = magic_number;
    } in
    let mid = update (whole b off) (off + size) rest in
    let end : off + size + (s.size - size) ≡ off + s.size = ground arith in
    let at_rest : parted b off size (off + size) ≡ rest =
      update_ne mid off (off + size) first (λ e. omega arith)
      ∙ update_self (whole b off) (off + size) rest in
    rw large (
      rw (update_self mid off first) (record { size = refl; used = refl; next = refl; room = hs }),
      (
        rw at_rest (record {
          size = ap (λ (n : ℕ). n - size) here.size;
          used = refl;
          next = here.next ∙ ap (λ (m : ℕ). link m ss) (sym end);
          room = ground arith;
        }),
        rw end (
            Chain-below mid off (off + s.size) first ss (omega (arith, here.room)) (
              Chain-below (whole b off) (off + size) (off + s.size) rest ss (ground arith) (
                Chain-below b off (off + s.size)
                  (record (b off) { used = true; magic = magic_number }) ss
                  (omega (arith, here.room)) more))),
      ),
    )

module _ (k size : ℕ) (hs : header_size ≤ size) where
  pub Chain-whole :
      (b : ℕ → Block) (off : ℕ) (s : Seg) (ss : List Seg)
      → Chain b off ss
      → seg_at off ss k ≡ some s
      → ltb s.size (size + header_size + min_block_size) ≡ true
      → Chain (whole b k) off (place off k size ss)
  Chain-whole b off s [] c e small = absurd (ground arith)
  Chain-whole b off s (t ∷ ts) (here, more) e small = elim (Bool-cases (off == k)) [
    | inl same ↦
        let at : off ≡ k = ground arith in
        let small_t : ltb t.size (size + header_size + min_block_size) ≡ true = ground arith in
        rw same (
          subst (λ m. Chain (whole b m) off (taken t size ts)) at
            (taken-whole b off size t ts here more small_t))
    | inr other ↦
        let e' : seg_at (off + t.size) ts k ≡ some s = ground arith in
        let low = (seg_at-bounds (off + t.size) k s ts e').0 in
        rw other (
          rw
              (update_ne b k off (record (b k) { used = true; magic = magic_number })
                (λ c. omega (arith, here.room)))
              (record {
                size = here.size;
                used = here.used;
                next = here.next ∙ sym (link-place (off + t.size) k size ts);
                room = here.room;
              }),
          Chain-whole b (off + t.size) s ts more e' small,
        )
  ]

  pub Chain-parted :
      (b : ℕ → Block) (off : ℕ) (s : Seg) (ss : List Seg)
      → Chain b off ss
      → seg_at off ss k ≡ some s
      → ltb s.size (size + header_size + min_block_size) ≡ false
      → Chain (parted b k size) off (place off k size ss)
  Chain-parted b off s [] c e large = absurd (ground arith)
  Chain-parted b off s (t ∷ ts) (here, more) e large = elim (Bool-cases (off == k)) [
    | inl same ↦
        let at : off ≡ k = ground arith in
        let large_t : ltb t.size (size + header_size + min_block_size) ≡ false = ground arith in
        rw same (
          subst (λ m. Chain (parted b m size) off (taken t size ts)) at
            (taken-parted b off size t ts hs here more large_t))
    | inr other ↦
        let e' : seg_at (off + t.size) ts k ≡ some s = ground arith in
        let low = (seg_at-bounds (off + t.size) k s ts e').0 in
        let kept : parted b k size off ≡ b off = ground (arith, here.room) in
        rw other (
          rw (kept) (record {
            size = here.size;
            used = here.used;
            next = here.next ∙ sym (link-place (off + t.size) k size ts);
            room = here.room;
          }),
          Chain-parted b (off + t.size) s ts more e' large,
        )
  ]
