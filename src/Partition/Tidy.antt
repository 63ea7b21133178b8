-- ===== src/Partition/Tidy.antt =====
-- Partitions of src/drivers/partition.c that do not overlap: which tables are tidy, and that writing a
-- tidy table leaves one.
use eyn_os.Base.{
  ℕ, ◌+◌, ◌-◌, ◌*◌, ◌/◌, ◌%◌, ◌^◌, ◌≤◌, ◌<◌, ◌≡◌, ◌≢◌, refl, ap, sym, ◌∙◌, subst, Bool, true, false,
  not, ◌&&◌, ltb, leb, ◌==◌, if◌then◌else◌, arith, Bool-cases, inl, inr, ◌⊎◌, bit_or,
}
use eyn_os.Base.Bits.{bit_or-lt}
use eyn_os.Base.Loop.{for_range, for_range_inv}
use eyn_os.Partition.{Disk, signed, with_table}
use eyn_os.Partition.Entry.{
  Part, no_part, table_offset, entry_size, max_partitions, is_present, parse_entry, entry_byte,
  put_entry, read_word,
}
use eyn_os.Partition.Table.{
  InWidth, SameEntry, stored_part, with_table-Filled, parse_entry-SameEntry,
}

-- Two ranges of sectors do not meet.
abbrev pub Apart : Part → Part → Type 0
Apart p q =
    (p.lba_start + p.sector_count ≤ q.lba_start) ⊎ (q.lba_start + q.sector_count ≤ p.lba_start)

-- The partitions that are there end below 2^32 and do not meet.
pub record Tidy (parts : ℕ → Part) : Type 0 where
  pub ends :
      (i : ℕ)
      → i < max_partitions
      → is_present (parts i) ≡ true
      → (parts i).lba_start + (parts i).sector_count < 2 ^ 32
  pub apart :
      (i j : ℕ)
      → i < max_partitions
      → j < max_partitions
      → i ≢ j
      → is_present (parts i) ≡ true
      → is_present (parts j) ≡ true
      → Apart (parts i) (parts j)

abbrev pub Bytes : (ℕ → ℕ) → Type 0
Bytes m = (a : ℕ) → m a < 256

-- The sector has bytes, and a tidy table.
abbrev pub Sound : (drive : ℕ) → (ℕ → ℕ) → Type 0
Sound drive m = Bytes m × Tidy (parse_entry drive m)

is_present-same : (p q : Part) → SameEntry p q → is_present p ≡ is_present q
unfolding is_present
is_present-same p q s =
    ap (λ (n : ℕ). not (n == 0) && ltb 0 p.sector_count) s.type
    ∙ ap (λ (n : ℕ). not (q.part_type == 0) && ltb 0 n) s.count

pub Tidy-same :
    (ps qs : ℕ → Part)
    → ((i : ℕ) → i < max_partitions → SameEntry (ps i) (qs i))
    → Tidy qs
    → Tidy ps
Tidy-same ps qs same h = record {
  ends = λ i l p.
      let s = same i l in
      let there = sym (is_present-same (ps i) (qs i) s) ∙ p in
      omega (arith, s.start, s.count, h.ends i l there);
  apart = λ i j l m n p q.
      let s = same i l in
      let t = same j m in
      let there = sym (is_present-same (ps i) (qs i) s) ∙ p in
      let other = sym (is_present-same (ps j) (qs j) t) ∙ q in
      elim (h.apart i j l m n there other) [
        | inl f ↦ inl (omega (arith, s.start, s.count, t.start))
        | inr f ↦ inr (omega (arith, t.start, t.count, s.start))
      ];
}

-- What stays of a partition that is there is the partition.
stored_part-present : (p : Part) → is_present (stored_part p) ≡ true → is_present p ≡ true
unfolding is_present
stored_part-present p e = elim (Bool-cases (is_present p)) [
  | inl f ↦ f
  | inr f ↦
      let none = subst (λ b. is_present (if b then p else no_part) ≡ true) f e in
      absurd (ground (arith, none))
]

stored_part-same : (p : Part) → is_present p ≡ true → stored_part p ≡ p
stored_part-same p e = simp e refl

Tidy-stored : (ps : ℕ → Part) → Tidy ps → Tidy (λ i. stored_part (ps i))
Tidy-stored ps h = record {
  ends = λ i l p.
      let there = stored_part-present (ps i) p in
      subst (λ q. q.lba_start + q.sector_count < 2 ^ 32) (sym (stored_part-same (ps i) there))
        (h.ends i l there);
  apart = λ i j l m n p q.
      let there = stored_part-present (ps i) p in
      let other = stored_part-present (ps j) q in
      subst (λ x. Apart x (stored_part (ps j))) (sym (stored_part-same (ps i) there))
        (subst (λ x. Apart (ps i) x) (sym (stored_part-same (ps j) other))
          (h.apart i j l m n there other));
}

either-lt : (b : Bool) (x y : ℕ) → x < 256 → y < 256 → (if b then x else y) < 256
either-lt true x y l m = l
either-lt false x y l m = m

entry_byte-lt : (p : Part) (k : ℕ) → entry_byte p k < 256
entry_byte-lt p k =
    let start : p.lba_start / 2 ^ (8 * (k - 8)) % 256 < 256 = omega arith in
    let count : p.sector_count / 2 ^ (8 * (k - 12)) % 256 < 256 = omega arith in
    let flag = either-lt p.is_bootable 0x80 0 (omega arith) (omega arith) in
    let numbers =
      either-lt (ltb k 12) (p.lba_start / 2 ^ (8 * (k - 8)) % 256)
        (p.sector_count / 2 ^ (8 * (k - 12)) % 256) start count in
    ground (arith, flag, numbers)

put_entry-Bytes : (i : ℕ) (p : Part) (m : ℕ → ℕ) → Bytes m → Bytes (put_entry i p m)
unfolding put_entry
put_entry-Bytes i p m h a =
    let entry = table_offset + i * entry_size in
    either-lt (leb entry a && ltb a (entry + entry_size))
      (if is_present p then entry_byte p (a - entry) else 0) (m a)
      (either-lt (is_present p) (entry_byte p (a - entry)) 0 (entry_byte-lt p (a - entry))
        (omega arith))
      (h a)

with_table-Bytes : (info : Disk) (m : ℕ → ℕ) → Bytes m → Bytes (with_table info m)
with_table-Bytes info m h a =
    let step = λ (i : ℕ) (n : ℕ → ℕ). put_entry i (info.partitions i) n in
    let all =
      for_range_inv (λ k n. Bytes n) step max_partitions 0 max_partitions m (omega arith)
        (λ k n x y b. put_entry-Bytes k (info.partitions k) n b) h in
    signed-lt (for_range max_partitions 0 step m) all
  where
    signed-lt : (n : ℕ → ℕ) → Bytes n → signed n a < 256
    signed-lt n b = ground (arith, b a)

-- A tidy table is tidy once it is written.
pub with_table-Sound :
    (drive : ℕ) (info : Disk) (m : ℕ → ℕ)
    → Bytes m
    → ((i : ℕ) → i < max_partitions → InWidth (info.partitions i))
    → Tidy info.partitions
    → Sound drive (with_table info m)
with_table-Sound drive info m b w h =
    let sector = with_table info m in
    let filled = with_table-Filled info m in
    (
      with_table-Bytes info m b,
      Tidy-same (parse_entry drive sector) (λ i. stored_part (info.partitions i))
          (λ i l.
            parse_entry-SameEntry drive i sector (info.partitions i) (w i l)
              (λ k u. filled.0 i k l u))
          (Tidy-stored info.partitions h),
    )

read_word-lt : (m : ℕ → ℕ) (at : ℕ) → Bytes m → read_word m at < 2 ^ 32
unfolding read_word
read_word-lt m at b =
    bit_or-lt 32 (bit_or (bit_or (m at) (m (at + 1) * 2 ^ 8)) (m (at + 2) * 2 ^ 16))
      (m (at + 3) * 2 ^ 24)
      (bit_or-lt 32 (bit_or (m at) (m (at + 1) * 2 ^ 8)) (m (at + 2) * 2 ^ 16)
        (bit_or-lt 32 (m at) (m (at + 1) * 2 ^ 8) (omega (arith, b at)) (omega (arith, b (at + 1))))
        (omega (arith, b (at + 2))))
      (omega (arith, b (at + 3)))

-- What is read from bytes has its width.
pub parse_entry-InWidth :
    (drive : ℕ) (m : ℕ → ℕ) (i : ℕ) (p : Part)
    → Bytes m
    → SameEntry p (parse_entry drive m i)
    → InWidth p
parse_entry-InWidth drive m i p b s =
    let entry = table_offset + i * entry_size in
    record {
      type = omega (arith, s.type, b (entry + 4));
      start = omega (arith, s.start, read_word-lt m (entry + 8) b);
      count = omega (arith, s.count, read_word-lt m (entry + 12) b);
    }
