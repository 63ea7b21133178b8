-- ===== src/Partition/Replace.antt =====
-- One entry of a table of src/drivers/partition.c is replaced, by a partition that meets no other.
use eyn_os.Base.{
  ℕ, ◌+◌, ◌%◌, ◌^◌, ◌≤◌, ◌<◌, ◌≡◌, refl, Bool, true, false, not, ◌&&◌, ◌||◌, ltb, ◌==◌, arith,
  Bool-cases, inl, inr, ◌⊎◌, update,
}
use eyn_os.Partition.{Sectors, Result, failed, answered, overlaps, answering}
use eyn_os.Partition.Entry.{Part, no_part, max_partitions, is_present}
use eyn_os.Partition.Table.{InWidth}
use eyn_os.Partition.Tidy.{Apart, Tidy}

-- The test of overlap finds what meets.
pub overlaps-Apart :
    (start_lba size_sectors : ℕ) (p : Part)
    → start_lba + size_sectors < 2 ^ 32
    → p.lba_start + p.sector_count < 2 ^ 32
    → overlaps start_lba size_sectors p ≡ false
    → (start_lba + size_sectors ≤ p.lba_start) ⊎ (p.lba_start + p.sector_count ≤ start_lba)
overlaps-Apart start_lba size_sectors p a b o =
    let end : (start_lba + size_sectors) % 2 ^ 32 ≡ start_lba + size_sectors = omega arith in
    let p_end : (p.lba_start + p.sector_count) % 2 ^ 32 ≡ p.lba_start + p.sector_count =
      omega arith in
    clear start_lba (start_lba + size_sectors) p.lba_start (p.lba_start + p.sector_count)
      (simp (end, p_end) at o)
  where
    clear :
        (s t u v : ℕ)
        → ((not (ltb s u) && ltb s v)
            || (ltb u t && not (ltb v t))
            || (not (ltb u s) && not (ltb t v)))
          ≡ false
        → (t ≤ u) ⊎ (v ≤ s)
    clear s t u v e = elim (Bool-cases (ltb s u)) [
      | inl f ↦ inl (ground (arith, e, f))
      | inr f ↦ inr (ground (arith, e, f))
    ]

pub is_present-is_empty : (p : Part) → is_present p ≡ true → (p.part_type == 0) ≡ false
unfolding is_present
is_present-is_empty p e = ground (arith, e)

-- A tidy table stays tidy when an entry is replaced by one that meets no other.
pub Tidy-update :
    (ps : ℕ → Part) (n : ℕ) (q : Part)
    → Tidy ps
    → (is_present q ≡ true → q.lba_start + q.sector_count < 2 ^ 32)
    → ((j : ℕ)
        → j < max_partitions
        → is_present q ≡ true
        → is_present (ps j) ≡ true
        → Apart q (ps j))
    → Tidy (update ps n q)
Tidy-update ps n q h end clear = record {
  ends = λ i l p. elim (Bool-cases (n == i)) [
    | inl e ↦ simp e (end (simp e at p))
    | inr e ↦ simp e (h.ends i l (simp e at p))
  ];
  apart = λ i j l m o p r. elim (Bool-cases (n == i)) [
    | inl e ↦
        let other : (n == j) ≡ false = ground (arith, e, o) in
        simp (e, other) (clear j m (simp e at p) (simp other at r))
    | inr e ↦ elim (Bool-cases (n == j)) [
      | inl f ↦
          simp (e, f)
            (elim (clear i l (simp f at r) (simp e at p)) [ inl x ↦ inr x | inr x ↦ inl x ])
      | inr f ↦ simp (e, f) (h.apart i j l m o (simp e at p) (simp f at r))
    ]
  ];
}

pub InWidth-update :
    (ps : ℕ → Part) (n : ℕ) (q : Part)
    → ((i : ℕ) → i < max_partitions → InWidth (ps i))
    → InWidth q
    → (i : ℕ) → i < max_partitions
    → InWidth (update ps n q i)
InWidth-update ps n q w v i l = elim (Bool-cases (n == i)) [
  | inl e ↦ simp e v
  | inr e ↦ simp e (w i l)
]

pub no_part-absent :
    (drive n : ℕ) → is_present (record no_part { drive = drive; partition_num = n }) ≡ false
unfolding is_present
no_part-absent drive n = refl

pub is_present-boot :
    (p : Part) (b : Bool) → is_present (record p { is_bootable = b }) ≡ is_present p
unfolding is_present
is_present-boot p b = refl

pub answering-state : (n : ℕ) (r : Result × Sectors) → (answering n r).1 ≡ r.1
answering-state n (failed, s) = refl
answering-state n (answered value, s) = elim (Bool-cases (value == 0)) [
  | inl e ↦ simp e refl
  | inr e ↦ simp e refl
]
