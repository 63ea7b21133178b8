-- ===== src/Partition/Table.antt =====
-- The partition table of src/drivers/partition.c as a whole: what is written is read back.
use eyn_os.Base.{
  ℕ, ◌+◌, ◌*◌, ◌^◌, ◌<◌, ◌≡◌, refl, ap, sym, ◌∙◌, subst, Bool, true, false, ◌==◌, ==_iff,
  if◌then◌else◌, arith, Bool-cases, inl, inr,
}
use eyn_os.Base.Loop.{for_range, for_range_inv}
use eyn_os.Partition.{Disk, signature_offset, signed, with_table}
use eyn_os.Partition.Entry.{
  Part, no_part, table_offset, entry_size, max_partitions, is_present, parse_entry, entry_byte,
  put_entry, read_word-byte_of, read_word-zeros, put_entry-inside, put_entry-outside,
}

-- The numbers of a partition have their widths.
pub record InWidth (p : Part) : Type 0 where
  pub type : p.part_type < 2 ^ 8
  pub start : p.lba_start < 2 ^ 32
  pub count : p.sector_count < 2 ^ 32

-- What the sector holds of a partition.
pub record SameEntry (p q : Part) : Type 0 where
  pub type : p.part_type ≡ q.part_type
  pub bootable : p.is_bootable ≡ q.is_bootable
  pub start : p.lba_start ≡ q.lba_start
  pub count : p.sector_count ≡ q.sector_count

-- The entry of a partition, an empty one if it is not there.
abbrev pub stored_part : Part → Part
stored_part p = if is_present p then p else no_part

abbrev stored_byte : Part → ℕ → ℕ
stored_byte p k = if is_present p then entry_byte p k else 0

-- The entries below `n` are written, and what lies before the table is kept.
abbrev Filled : (Disk → (ℕ → ℕ) → ℕ → (ℕ → ℕ) → Type 0)
Filled info mbr n m =
    ((i k : ℕ)
      → i < n
      → k < entry_size
      → m (table_offset + i * entry_size + k) ≡ stored_byte (info.partitions i) k)
    × ((a : ℕ) → a < table_offset → m a ≡ mbr a)

put_entry-Filled :
    (info : Disk) (mbr : ℕ → ℕ) (n : ℕ) (m : ℕ → ℕ)
    → Filled info mbr n m
    → Filled info mbr (n + 1) (put_entry n (info.partitions n) m)
put_entry-Filled info mbr n m (entries, before) = (
  λ i k l u. elim (Bool-cases (i == n)) [
    | inl e ↦
        subst
          (λ j.
            put_entry n (info.partitions n) m (table_offset + j * entry_size + k)
            ≡ stored_byte (info.partitions j) k)
          (sym ((==_iff i n).0 e)) (put_entry-inside n k (info.partitions n) m u)
    | inr e ↦
        let smaller : i < n = ground arith in
        put_entry-outside n (table_offset + i * entry_size + k) (info.partitions n) m
          (inl (omega arith))
        ∙ entries i k smaller u
  ],
  λ a l. put_entry-outside n a (info.partitions n) m (inl (omega arith)) ∙ before a l,
)

signed-before : (m : ℕ → ℕ) (a : ℕ) → a < signature_offset → signed m a ≡ m a
signed-before m a l =
    let first : (signature_offset + 1 == a) ≡ false = ground arith in
    let second : (signature_offset == a) ≡ false = ground arith in simp (first, second) refl

pub with_table-Filled :
    (info : Disk) (mbr : ℕ → ℕ) → Filled info mbr max_partitions (with_table info mbr)
with_table-Filled info mbr =
    let step = λ (i : ℕ) (m : ℕ → ℕ). put_entry i (info.partitions i) m in
    let all =
      for_range_inv (Filled info mbr) step max_partitions 0 max_partitions mbr (omega arith)
        (λ k m a b h. put_entry-Filled info mbr k m h)
        ((λ i k l u. absurd (omega arith)), λ a l. refl) in
    let table = for_range max_partitions 0 step mbr in
    (
      λ i k l u.
          signed-before table (table_offset + i * entry_size + k) (omega arith) ∙ all.0 i k l u,
      λ a l. signed-before table a (omega arith) ∙ all.1 a l,
    )

module _ (drive i : ℕ) (m : ℕ → ℕ) (p : Part) (w : InWidth p)
    (at : (k : ℕ) → k < entry_size → m (table_offset + i * entry_size + k) ≡ stored_byte p k) where
  abbrev entry : ℕ
  entry = table_offset + i * entry_size

  shifted : (j d k : ℕ) → j + d ≡ k → k < entry_size → m (entry + j + d) ≡ stored_byte p k
  shifted j d k e l = let place : entry + j + d ≡ entry + k = omega arith in ap m place ∙ at k l

  at_start : m entry ≡ stored_byte p 0
  at_start = let place : entry ≡ entry + 0 = omega arith in ap m place ∙ at 0 (omega arith)

  present_entry : is_present p ≡ true → SameEntry (parse_entry drive m i) p
  present_entry e =
      let byte = λ (k : ℕ) (l : k < entry_size).
        at k l ∙ ap (λ (b : Bool). if b then entry_byte p k else 0) e in
      let more = λ (j d k : ℕ) (f : j + d ≡ k) (l : k < entry_size).
        shifted j d k f l ∙ ap (λ (b : Bool). if b then entry_byte p k else 0) e in
      record {
        type = byte 4 (omega arith) ∙ omega (arith, w.type);
        bootable =
            ap (λ (n : ℕ). n == 0x80)
              (at_start ∙ ap (λ (b : Bool). if b then entry_byte p 0 else 0) e)
            ∙ flag p.is_bootable;
        start =
            read_word-byte_of m (entry + 8) p.lba_start w.start (byte 8 (omega arith))
              (more 8 1 9 (omega arith) (omega arith)) (more 8 2 10 (omega arith) (omega arith))
              (more 8 3 11 (omega arith) (omega arith));
        count =
            read_word-byte_of m (entry + 12) p.sector_count w.count (byte 12 (omega arith))
              (more 12 1 13 (omega arith) (omega arith)) (more 12 2 14 (omega arith) (omega arith))
              (more 12 3 15 (omega arith) (omega arith));
      }
    where
      flag : (b : Bool) → ((if b then 0x80 else 0) == 0x80) ≡ b
      flag true = refl
      flag false = refl

  absent_entry : is_present p ≡ false → SameEntry (parse_entry drive m i) no_part
  absent_entry e =
      let byte = λ (k : ℕ) (l : k < entry_size).
        at k l ∙ ap (λ (b : Bool). if b then entry_byte p k else 0) e in
      let more = λ (j d k : ℕ) (f : j + d ≡ k) (l : k < entry_size).
        shifted j d k f l ∙ ap (λ (b : Bool). if b then entry_byte p k else 0) e in
      record {
        type = byte 4 (omega arith);
        bootable =
            ap (λ (n : ℕ). n == 0x80)
              (at_start ∙ ap (λ (b : Bool). if b then entry_byte p 0 else 0) e);
        start =
            read_word-zeros m (entry + 8) (byte 8 (omega arith))
              (more 8 1 9 (omega arith) (omega arith)) (more 8 2 10 (omega arith) (omega arith))
              (more 8 3 11 (omega arith) (omega arith));
        count =
            read_word-zeros m (entry + 12) (byte 12 (omega arith))
              (more 12 1 13 (omega arith) (omega arith)) (more 12 2 14 (omega arith) (omega arith))
              (more 12 3 15 (omega arith) (omega arith));
      }

  -- An entry whose bytes are those of a partition is parsed as that partition.
  pub parse_entry-SameEntry : SameEntry (parse_entry drive m i) (stored_part p)
  parse_entry-SameEntry = elim (Bool-cases (is_present p)) [
    | inl e ↦ simp e (present_entry e)
    | inr e ↦ simp e (absent_entry e)
  ]
