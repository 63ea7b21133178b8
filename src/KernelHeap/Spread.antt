-- ===== src/KernelHeap/Spread.antt =====
-- Lists of blocks after a merge in src/utilities/util.c: no two neighbours are free, and the blocks in
-- use are where they were.
use eyn_os.Base.{
  ℕ, ◌+◌, ◌-◌, ◌≤◌, ◌≡◌, ◌≢◌, ◌∙◌, refl, sym, ap, Bool, true, false, not, ◌&&◌, List, [], ◌∷◌, ltb,
  ◌==◌, if◌then◌else◌, inl, inr, Bool-cases, arith, some, drop,
}
use eyn_os.KernelHeap.{header_size, min_block_size}
use eyn_os.KernelHeap.Tiles.{Seg, total, seg_at, Roomy}
use eyn_os.KernelHeap.Place.{taken, place}
use eyn_os.KernelHeap.Absorb.{grown, absorb, coalesce, absorb-grown}

-- No two neighbours are free.
abbrev pub Apart : Seg → List Seg → Type 0
Apart s [] = Unit {0}
Apart s (t ∷ ts) = (not s.used && not t.used) ≡ false

abbrev pub Spread : List Seg → Type 0
Spread [] = Unit {0}
Spread (s ∷ ss) = Apart s ss × Spread ss

used-grown : (s : Seg) (ss : List Seg) → (grown s ss).used ≡ s.used
used-grown s [] = refl
used-grown s (t ∷ ts) = elim (Bool-cases (not s.used && not t.used)) [
  | inl e ↦ rw e (used-grown (record { size = s.size + t.size; used = s.used }) ts)
  | inr e ↦ rw e refl
]

Apart-absorb :
    (s t : Seg) (ts : List Seg) → (not s.used && not t.used) ≡ false → Apart s (absorb t ts)
Apart-absorb s t ts e = rw (absorb-grown t ts, used-grown t ts) e

absorb-Spread : (s : Seg) (ss : List Seg) → Spread (absorb s ss)
absorb-Spread s [] = (tt, tt)
absorb-Spread s (t ∷ ts) = elim (Bool-cases (not s.used && not t.used)) [
  | inl e ↦ rw e (absorb-Spread (record { size = s.size + t.size; used = s.used }) ts)
  | inr e ↦ rw e (Apart-absorb s t ts e, absorb-Spread t ts)
]

pub coalesce-Spread : (ss : List Seg) → Spread (coalesce ss)
coalesce-Spread [] = tt
coalesce-Spread (s ∷ ss) = absorb-Spread s ss

absorb_done : (s : Seg) (ss : List Seg) → Spread (s ∷ ss) → absorb s ss ≡ s ∷ ss
absorb_done s [] p = refl
absorb_done s (t ∷ ts) (here, more) = rw here (ap (λ r. s ∷ r) (absorb_done t ts more))

-- A merged list is not merged further.
pub coalesce_done : (ss : List Seg) → Spread ss → coalesce ss ≡ ss
coalesce_done [] p = refl
coalesce_done (s ∷ ss) p = absorb_done s ss p

-- The list with the block at `k` freed.
abbrev pub freed : (off k : ℕ) → List Seg → List Seg
freed off k [] = []
freed off k (s ∷ ss) =
    if off == k then record s { used = false } ∷ ss else s ∷ freed (off + s.size) k ss

seg_at-joined :
    (off k : ℕ) (s t u : Seg) (ts : List Seg)
    → (not s.used && not t.used) ≡ true
    → u.used ≡ true
    → seg_at off (s ∷ t ∷ ts) k ≡ some u
    → seg_at off (record { size = s.size + t.size; used = s.used } ∷ ts) k ≡ some u
seg_at-joined off k s t u ts both hu e = elim (Bool-cases (off == k)) [
  | inl same ↦ absurd (ground arith)
  | inr other ↦ elim (Bool-cases (off + s.size == k)) [
    | inl same ↦ absurd (ground arith)
    | inr later ↦
        let end : off + s.size + t.size ≡ off + (s.size + t.size) = omega arith in
        let rest : seg_at (off + s.size + t.size) ts k ≡ some u = ground arith in
        rw (other, ← end) rest
  ]
]

-- A block in use, at or after the one that grows, stays.
absorb-seg_at :
    (off k : ℕ) (s u : Seg) (ss : List Seg)
    → u.used ≡ true
    → Roomy (s ∷ ss)
    → seg_at off (s ∷ ss) k ≡ some u
    → seg_at off (absorb s ss) k ≡ some u
absorb-seg_at off k s u [] hu r e = e
absorb-seg_at off k s u (t ∷ ts) hu (room, (room', more)) e =
    elim (Bool-cases (not s.used && not t.used)) [
      | inl both ↦ rw both (
          absorb-seg_at off k (record { size = s.size + t.size; used = s.used }) u ts hu
            (omega arith, more) (seg_at-joined off k s t u ts both hu e))
      | inr one ↦ rw one (elim (Bool-cases (off == k)) [
        | inl same ↦ rw same (ground arith)
        | inr other ↦
            rw other (absorb-seg_at (off + s.size) k t u ts hu (room', more) (ground arith))
      ])
    ]

-- A block in use stays when the blocks are merged.
pub coalesce-seg_at :
    (off k : ℕ) (u : Seg) (ss : List Seg)
    → u.used ≡ true
    → Roomy ss
    → seg_at off ss k ≡ some u
    → seg_at off (coalesce ss) k ≡ some u
coalesce-seg_at off k u [] hu r e = e
coalesce-seg_at off k u (s ∷ ss) hu r e = absorb-seg_at off k s u ss hu r e

-- The blocks at other places stay when one is freed.
pub seg_at-freed :
    (off k j : ℕ) (u : Seg) (ss : List Seg)
    → k ≢ j
    → seg_at off ss j ≡ some u
    → seg_at off (freed off k ss) j ≡ some u
seg_at-freed off k j u [] h e = e
seg_at-freed off k j u (s ∷ ss) h e = elim (Bool-cases (off == k)) [
  | inl same ↦ rw same (ground arith)
  | inr other ↦ rw other (ground (arith, seg_at-freed (off + s.size) k j u ss h))
]

pub Roomy-freed : (off k : ℕ) (ss : List Seg) → Roomy ss → Roomy (freed off k ss)
Roomy-freed off k [] r = r
Roomy-freed off k (s ∷ ss) (room, more) = elim (Bool-cases (off == k)) [
  | inl same ↦ rw same (room, more)
  | inr other ↦ rw other (room, Roomy-freed (off + s.size) k ss more)
]

pub total-freed : (off k : ℕ) (ss : List Seg) → total (freed off k ss) ≡ total ss
total-freed off k [] = refl
total-freed off k (s ∷ ss) = elim (Bool-cases (off == k)) [
  | inl same ↦ rw same refl
  | inr other ↦ rw other (ap (λ n. s.size + n) (total-freed (off + s.size) k ss))
]

total-absorb : (s : Seg) (ss : List Seg) → total (absorb s ss) ≡ s.size + total ss
total-absorb s [] = refl
total-absorb s (t ∷ ts) = elim (Bool-cases (not s.used && not t.used)) [
  | inl e ↦ rw e (total-absorb (record { size = s.size + t.size; used = s.used }) ts ∙ omega arith)
  | inr e ↦ rw e (ap (λ n. s.size + n) (total-absorb t ts))
]

pub total-coalesce : (ss : List Seg) → total (coalesce ss) ≡ total ss
total-coalesce [] = refl
total-coalesce (s ∷ ss) = total-absorb s ss

Seg_eq : (s : Seg) (n : ℕ) → n ≡ s.size → s.used ≡ false → record { size = n; used = false } ≡ s
Seg_eq s n e f =
    ap (λ (m : ℕ). record { size = m; used = false }) e
    ∙ ap (λ (u : Bool). record { size = s.size; used = u }) (sym f)

absorb_two :
    (n size : ℕ) (u : Bool) (t : Seg) (ts : List Seg)
    → t.used ≡ false
    → size ≤ t.size
    → absorb
        (record { size = n; used = u })
        (record { size = size; used = false } ∷ record { size = t.size - size; used = false } ∷ ts)
      ≡ absorb (record { size = n; used = u }) (t ∷ ts)
absorb_two n size true t ts free enough =
    ap (λ (w : Seg). record { size = n; used = true } ∷ absorb w ts)
      (Seg_eq t (size + (t.size - size)) (omega arith) free)
absorb_two n size false t ts free enough =
    rw free (ap (λ (m : ℕ). absorb (record { size = m; used = false }) ts) (omega arith))

absorb-freed-taken :
    (off k size : ℕ) (p t : Seg) (ts : List Seg)
    → (off == k) ≡ true
    → t.used ≡ false
    → size ≤ t.size
    → absorb p (freed off k (taken t size ts)) ≡ absorb p (t ∷ ts)
absorb-freed-taken off k size p t ts same free enough =
    elim (Bool-cases (ltb t.size (size + header_size + min_block_size))) [
      | inl small ↦ rw (small, same) (ap (λ u. absorb p (u ∷ ts)) (Seg_eq t t.size refl free))
      | inr large ↦ rw (large, same) (absorb_two p.size size p.used t ts free enough)
    ]

absorb-used :
    (ss : List Seg)
    → absorb (record { size = 0; used = true }) ss ≡ record { size = 0; used = true } ∷ coalesce ss
absorb-used [] = refl
absorb-used (t ∷ ts) = refl

-- Taking a free block and freeing it again is undone by the merge.
module _ (k size : ℕ) (s : Seg) (free : s.used ≡ false) (enough : size ≤ s.size) where
  absorb-freed :
      (off : ℕ) (p : Seg) (ss : List Seg)
      → seg_at off ss k ≡ some s
      → absorb p (freed off k (place off k size ss)) ≡ absorb p ss
  absorb-freed off p [] e = refl
  absorb-freed off p (t ∷ ts) e = elim (Bool-cases (off == k)) [
    | inl same ↦
        (let mine : t ≡ s = ground arith in
          rw same (
            absorb-freed-taken off k size p t ts same (ap (λ (u : Seg). u.used) mine ∙ free)
              (rw mine enough)))
    | inr other ↦
        rw (other, other)
          (elim (Bool-cases (not p.used && not t.used)) [
            | inl e' ↦ rw e' (
                absorb-freed (off + t.size) (record { size = p.size + t.size; used = p.used }) ts
                  (ground arith))
            | inr e' ↦ rw e' (ap (λ r. p ∷ r) (absorb-freed (off + t.size) t ts (ground arith)))
          ])
  ]

  pub coalesce-freed :
      (off : ℕ) (ss : List Seg)
      → seg_at off ss k ≡ some s
      → coalesce (freed off k (place off k size ss)) ≡ coalesce ss
  coalesce-freed off ss e = ap (drop 1) (
      sym (absorb-used (freed off k (place off k size ss)))
      ∙ absorb-freed off (record { size = 0; used = true }) ss e
      ∙ absorb-used ss)
