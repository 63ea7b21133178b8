-- ===== src/Partition/Read.antt =====
-- Reading back the partition table that src/drivers/partition.c has written.
use eyn_os.Base.{
  ℕ, ◌+◌, ◌<◌, ◌≡◌, refl, ap, sym, ◌∙◌, subst, true, ◌==◌, ==_iff, ==_refl, some, arith, Bool-cases,
  inl, inr, update, update_self,
}
use eyn_os.Base.Loop.{for_range, for_range_inv}
use eyn_os.Partition.{
  Disk, Env, Sectors, answered, no_disk, read_entry, has_signature, read_table, with_table,
  write_table,
}
use eyn_os.Partition.Entry.{Part, table_offset, max_partitions, is_present, parse_entry}
use eyn_os.Partition.Table.{
  InWidth, SameEntry, stored_part, with_table-Filled, parse_entry-SameEntry,
}

-- The entries below `n` are read.
abbrev Shown : (drive : ℕ) → (ℕ → ℕ) → ℕ → Disk → Type 0
Shown drive mbr n d =
    (d.drive ≡ drive) × ((i : ℕ) → i < n → SameEntry (d.partitions i) (parse_entry drive mbr i))

one_more :
    (drive n : ℕ) (mbr : ℕ → ℕ) (parts : ℕ → Part) (q : Part)
    → ((i : ℕ) → i < n → SameEntry (parts i) (parse_entry drive mbr i))
    → SameEntry q (parse_entry drive mbr n)
    → (i : ℕ) → i < n + 1
    → SameEntry (update parts n q i) (parse_entry drive mbr i)
one_more drive n mbr parts q old now i l = elim (Bool-cases (n == i)) [
  | inl f ↦
      subst (λ j. SameEntry (update parts n q j) (parse_entry drive mbr j)) ((==_iff n i).0 f)
        (simp (==_refl n) now)
  | inr f ↦ simp f (old i (ground arith))
]

read_entry-Shown :
    (e : Env) (drive : ℕ) (mbr : ℕ → ℕ) (n : ℕ) (d : Disk)
    → Shown drive mbr n d
    → Shown drive mbr (n + 1) (read_entry e mbr n d)
read_entry-Shown e drive mbr n d (same, old) =
    elim (Bool-cases (is_present (parse_entry d.drive mbr n))) [
      | inl f ↦ simp f (
        same,
        one_more drive n mbr d.partitions
            (record (parse_entry d.drive mbr n) {
              label = n + 1;
              fs_type = e.detect_fs d.drive (parse_entry d.drive mbr n).lba_start;
            })
            old (record { type = refl; bootable = refl; start = refl; count = refl }),
      )
      | inr f ↦ simp f (
        same,
        one_more drive n mbr d.partitions (parse_entry d.drive mbr n) old
            (record { type = refl; bootable = refl; start = refl; count = refl }),
      )
    ]

-- A table that can be read is the four entries of the sector.
pub read_table-entries :
    (e : Env) (drive : ℕ) (s : Sectors)
    → e.allowed ≡ true
    → e.reads ≡ true
    → (d : Disk) × (read_table e drive s ≡ some d)
      × ((i : ℕ) → i < max_partitions → SameEntry (d.partitions i) (parse_entry drive (s drive) i))
unfolding read_table
read_table-entries e drive s a r =
    let first : Disk = record (no_disk drive) { has_valid_mbr = has_signature (s drive) } in
    let all =
      for_range_inv (Shown drive (s drive)) (read_entry e (s drive)) max_partitions 0 max_partitions
        first (omega arith) (λ k d b c h. read_entry-Shown e drive (s drive) k d h)
        (refl, λ i l. absurd (omega arith)) in
    (for_range max_partitions 0 (read_entry e (s drive)) first, simp (a, r) refl, all.1)

pub SameEntry-trans : {p q r : Part} → SameEntry p q → SameEntry q r → SameEntry p r
SameEntry-trans a b = record {
  type = a.type ∙ b.type;
  bootable = a.bootable ∙ b.bootable;
  start = a.start ∙ b.start;
  count = a.count ∙ b.count;
}

pub write_table_lem :
    (e : Env) (drive : ℕ) (info : Disk) (s : Sectors)
    → e.allowed ≡ true
    → e.reads ≡ true
    → e.writes ≡ true
    → write_table e drive info s ≡ (answered 0, update s drive (with_table info (s drive)))
unfolding write_table
write_table_lem e drive info s a r w = simp (a, r, w) refl

-- When the disk answers, partition_write_table returns 0, and partition_read_table then gives the same
-- four entries (an entry with no type or no sectors is empty), if types have 8 bits and places and
-- sizes 32; the boot code before the table is kept.
pub read_table-write_table :
    (e : Env) (drive : ℕ) (info : Disk) (s : Sectors)
    → e.allowed ≡ true
    → e.reads ≡ true
    → e.writes ≡ true
    → ((i : ℕ) → i < max_partitions → InWidth (info.partitions i))
    → (t : Sectors) × (d : Disk) × (write_table e drive info s ≡ (answered 0, t))
      × (read_table e drive t ≡ some d)
      × ((i : ℕ)
          → i < max_partitions
          → SameEntry (d.partitions i) (stored_part (info.partitions i)))
      × ((a : ℕ) → a < table_offset → t drive a ≡ s drive a)
read_table-write_table e drive info s a r w width =
    let sector = with_table info (s drive) in
    let t = update s drive sector in
    let found = read_table-entries e drive t a r in
    let filled = with_table-Filled info (s drive) in
    (
      t,
      found.0,
      write_table_lem e drive info s a r w,
      found.1,
      λ i l. SameEntry-trans (found.2 i l) (
          subst (λ m. SameEntry (parse_entry drive m i) (stored_part (info.partitions i)))
            (sym (update_self s drive sector))
            (parse_entry-SameEntry drive i sector (info.partitions i) (width i l)
              (λ k u. filled.0 i k l u))),
      λ b l. ap (λ (m : ℕ → ℕ). m b) (update_self s drive sector) ∙ filled.1 b l,
    )
