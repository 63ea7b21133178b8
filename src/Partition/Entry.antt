-- ===== src/Partition/Entry.antt =====
-- One entry of the partition table of src/drivers/partition.c: how it is read and written.
use eyn_os.Base.{
  ℕ, ◌+◌, ◌-◌, ◌*◌, ◌/◌, ◌%◌, ◌^◌, ◌≤◌, ◌<◌, ◌≡◌, refl, Bool, true, false, not, ◌&&◌, ltb, leb,
  ◌==◌, if◌then◌else◌, ◌||◌, ◌⊎◌, bit_or, arith, inl, inr,
}
use eyn_os.Base.Bits.{bit_or_join}

-- MBR_PARTITION_TABLE_OFFSET.
abbrev pub table_offset : ℕ
table_offset = 0x1BE

abbrev pub entry_size : ℕ
entry_size = 16

abbrev pub max_partitions : ℕ
max_partitions = 4

-- `partition_info_t`. The label is the number in its text, 0 for none.
pub record Part : Type 0 where
  pub drive : ℕ
  pub partition_num : ℕ
  pub part_type : ℕ
  pub is_bootable : Bool
  pub lba_start : ℕ
  pub sector_count : ℕ
  pub size_mb : ℕ
  pub label : ℕ
  pub is_mounted : Bool
  pub fs_type : ℕ

abbrev pub no_part : Part
no_part = record {
  drive = 0;
  partition_num = 0;
  part_type = 0;
  is_bootable = false;
  lba_start = 0;
  sector_count = 0;
  size_mb = 0;
  label = 0;
  is_mounted = false;
  fs_type = 0;
}

unfoldable pub is_present : Part → Bool
is_present part = not (part.part_type == 0) && ltb 0 part.sector_count

-- Four bytes from `at` on, the lowest first, joined by `|`.
unfoldable pub read_word : (mbr : ℕ → ℕ) → (at : ℕ) → ℕ
read_word mbr at =
    bit_or (bit_or (bit_or (mbr at) (mbr (at + 1) * 2 ^ 8)) (mbr (at + 2) * 2 ^ 16))
      (mbr (at + 3) * 2 ^ 24)

abbrev pub parse_entry : (drive : ℕ) → (mbr : ℕ → ℕ) → (i : ℕ) → Part
parse_entry drive mbr i =
    let entry = table_offset + i * entry_size in
    let sector_count = read_word mbr (entry + 12) in
    record {
      drive = drive;
      partition_num = i;
      part_type = mbr (entry + 4);
      is_bootable = mbr entry == 0x80;
      lba_start = read_word mbr (entry + 8);
      sector_count = sector_count;
      size_mb = sector_count / 2048;
      label = 0;
      is_mounted = false;
      fs_type = 0;
    }

-- `(v >> (8 * k)) & 0xFF`.
abbrev pub byte_of : (v k : ℕ) → ℕ
byte_of v k = v / 2 ^ (8 * k) % 256

-- Byte `k` of the entry of a partition that is there: the flag, the type, two numbers, and the
-- cylinder bytes.
abbrev pub entry_byte : Part → (k : ℕ) → ℕ
entry_byte part k =
    if k == 0
    then (if part.is_bootable then 0x80 else 0)
    else if k == 4
    then part.part_type % 256
    else if (k == 1) || (k == 5)
    then 0xFE
    else if ltb k 8
    then 0xFF
    else if ltb k 12
    then byte_of part.lba_start (k - 8)
    else byte_of part.sector_count (k - 12)

-- The entry is cleared first, and filled for a partition that is there.
unfoldable pub put_entry : (i : ℕ) → Part → (ℕ → ℕ) → ℕ → ℕ
put_entry i part mbr a =
    let entry = table_offset + i * entry_size in
    if leb entry a && ltb a (entry + entry_size)
    then (if is_present part then entry_byte part (a - entry) else 0)
    else mbr a

-- The four bytes of a word are read back as the word.
pub read_word-byte_of :
    (mbr : ℕ → ℕ) (at v : ℕ)
    → v < 2 ^ 32
    → mbr at ≡ byte_of v 0
    → mbr (at + 1) ≡ byte_of v 1
    → mbr (at + 2) ≡ byte_of v 2
    → mbr (at + 3) ≡ byte_of v 3
    → read_word mbr at ≡ v
unfolding read_word
read_word-byte_of mbr at v l a b c d =
    let first = bit_or_join 8 (byte_of v 0) (byte_of v 1) (omega arith) in
    let second = bit_or_join 16 (byte_of v 0 + byte_of v 1 * 2 ^ 8) (byte_of v 2) (omega arith) in
    let third =
      bit_or_join 24 (byte_of v 0 + byte_of v 1 * 2 ^ 8 + byte_of v 2 * 2 ^ 16) (byte_of v 3)
        (omega arith) in
    simp (a, b, c, d) (simp (first, second, third) (omega arith))

-- Four zero bytes are read as 0.
pub read_word-zeros :
    (mbr : ℕ → ℕ) (at : ℕ)
    → mbr at ≡ 0
    → mbr (at + 1) ≡ 0
    → mbr (at + 2) ≡ 0
    → mbr (at + 3) ≡ 0
    → read_word mbr at ≡ 0
unfolding read_word
read_word-zeros mbr at a b c d = simp (a, b, c, d) refl

-- What an entry holds once it is written.
pub put_entry-inside :
    (i k : ℕ) (part : Part) (mbr : ℕ → ℕ)
    → k < entry_size
    → put_entry i part mbr (table_offset + i * entry_size + k)
      ≡ (if is_present part then entry_byte part k else 0)
unfolding put_entry
put_entry-inside i k part mbr l =
    let entry = table_offset + i * entry_size in
    let low : leb entry (entry + k) ≡ true = ground arith in
    let high : ltb (entry + k) (entry + entry_size) ≡ true = ground arith in
    let place : entry + k - entry ≡ k = omega arith in simp (low, high, place) refl

pub put_entry-outside :
    (i a : ℕ) (part : Part) (mbr : ℕ → ℕ)
    → (a < table_offset + i * entry_size) ⊎ (table_offset + i * entry_size + entry_size ≤ a)
    → put_entry i part mbr a ≡ mbr a
unfolding put_entry
put_entry-outside i a part mbr (inl f) =
    let low : leb (table_offset + i * entry_size) a ≡ false = ground arith in simp low refl
put_entry-outside i a part mbr (inr f) =
    let high : ltb a (table_offset + i * entry_size + entry_size) ≡ false = ground arith in
    let low : leb (table_offset + i * entry_size) a ≡ true = ground arith in simp (high, low) refl
