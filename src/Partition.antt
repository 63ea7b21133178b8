-- ===== src/Partition.antt =====
-- src/drivers/partition.c: the partition table in the first sector of a drive, and the virtual drives.
-- A state holds the bytes of the first sector of each drive. What the capability check, the disk and
-- the detection of file systems answer is given to a call. The accounting of costs and what is printed
-- are left out.
pub mod Entry
pub mod Table
pub mod Read
pub mod Tidy
pub mod Replace
pub mod History
pub mod Create
use eyn_os.Base.{
  ℕ, zero, suc, ◌+◌, ◌-◌, ◌*◌, ◌/◌, ◌%◌, ◌^◌, Bool, true, false, not, ◌&&◌, ◌||◌, ltb, leb, ◌==◌,
  if◌then◌else◌, Option, none, some, update,
}
use eyn_os.Base.Loop.{for_range, find_from}
use Entry.{
  Part, no_part, table_offset, entry_size, max_partitions, is_present, parse_entry, put_entry,
}

-- MBR_SIGNATURE_OFFSET.
abbrev pub signature_offset : ℕ
signature_offset = 510

-- `disk_info_t`; the two totals stay 0.
pub record Disk : Type 0 where
  pub drive : ℕ
  pub partition_count : ℕ
  pub partitions : ℕ → Part
  pub has_valid_mbr : Bool

-- The answers to one call: the check of the command, whether the sector can be read and written, what
-- a failed write leaves, and the file system at a place of a drive.
pub record Env : Type 0 where
  pub allowed : Bool
  pub reads : Bool
  pub writes : Bool
  pub spoiled : ℕ → ℕ
  pub detect_fs : ℕ → ℕ → ℕ

-- The first sectors, by drive.
abbrev pub Sectors : Type 0
Sectors = ℕ → ℕ → ℕ

-- The int that a function returns: -1 (or what a failed write answers), or another number.
pub data Result : Type 0 where
  failed : Result
  answered : (value : ℕ) → Result

abbrev pub no_disk : ℕ → Disk
no_disk drive = record {
  drive = drive;
  partition_count = 0;
  partitions = λ i. no_part;
  has_valid_mbr = false;
}

-- One round of the loop over the entries.
abbrev pub read_entry : Env → (mbr : ℕ → ℕ) → (i : ℕ) → Disk → Disk
read_entry e mbr i info =
    let part = parse_entry info.drive mbr i in
    if is_present part
    then record info {
      partition_count = (info.partition_count + 1) % 256;
      partitions =
          update info.partitions i
            (record part { label = i + 1; fs_type = e.detect_fs info.drive part.lba_start });
    }
    else record info { partitions = update info.partitions i part }

abbrev pub has_signature : (ℕ → ℕ) → Bool
has_signature mbr = (mbr signature_offset == 0x55) && (mbr (signature_offset + 1) == 0xAA)

unfoldable pub read_table : Env → (drive : ℕ) → Sectors → Option Disk
read_table e drive s =
    if not e.allowed || not e.reads
    then none
    else let info : Disk = record (no_disk drive) { has_valid_mbr = has_signature (s drive) } in
      some (for_range max_partitions 0 (read_entry e (s drive)) info)

-- The sector with the entries and the signature.
abbrev pub signed : (ℕ → ℕ) → ℕ → ℕ
signed mbr = update (update mbr signature_offset 0x55) (signature_offset + 1) 0xAA

abbrev pub with_table : Disk → (ℕ → ℕ) → ℕ → ℕ
with_table info mbr =
    signed (for_range max_partitions 0 (λ i m. put_entry i (info.partitions i) m) mbr)

unfoldable pub write_table : Env → (drive : ℕ) → Disk → Sectors → Result × Sectors
write_table e drive info s =
    if not e.allowed
    then (failed, s)
    else if not e.writes
    then (failed, update s drive e.spoiled)
    else (answered 0, update s drive (with_table info (if e.reads then s drive else λ a. 0)))

abbrev pub is_empty : Disk → ℕ → Bool
is_empty info i = (info.partitions i).part_type == 0

-- The test of the second loop of partition_create: the ends are taken in 32 bits.
abbrev pub overlaps : (start_lba size_sectors : ℕ) → Part → Bool
overlaps start_lba size_sectors p =
    let end_lba = (start_lba + size_sectors) % 2 ^ 32 in
    let p_start = p.lba_start in
    let p_end = (p_start + p.sector_count) % 2 ^ 32 in
    (not (ltb start_lba p_start) && ltb start_lba p_end)
    || (ltb p_start end_lba && not (ltb p_end end_lba))
    || (not (ltb p_start start_lba) && not (ltb end_lba p_end))

abbrev pub blocks : (start_lba size_sectors : ℕ) → Disk → ℕ → Bool
blocks start_lba size_sectors info i =
    not (is_empty info i) && overlaps start_lba size_sectors (info.partitions i)

abbrev pub new_part : (start_lba size_sectors part_type : ℕ) → Part → Part
new_part start_lba size_sectors part_type p = record p {
  part_type = part_type;
  lba_start = start_lba;
  sector_count = size_sectors;
  is_bootable = false;
  size_mb = size_sectors / 2048;
}

-- What the caller learns of a table that was written.
abbrev pub answering : ℕ → Result × Sectors → Result × Sectors
answering n (failed, s) = (failed, s)
answering n (answered value, s) = if value == 0 then (answered n, s) else (failed, s)

abbrev pub add_at :
    Env → (drive start_lba size_sectors part_type free_slot : ℕ) → Disk → Sectors → Result × Sectors
add_at e drive start_lba size_sectors part_type free_slot info s = answering free_slot (
    write_table e drive
      (record info {
        partition_count = (info.partition_count + 1) % 256;
        partitions =
            update info.partitions free_slot
              (new_part start_lba size_sectors part_type (info.partitions free_slot));
      })
      s)

abbrev pub create_unless :
    Env
    → (drive start_lba size_sectors part_type free_slot : ℕ) → Option ℕ
    → Disk
    → Sectors
    → Result × Sectors
create_unless e drive start_lba size_sectors part_type free_slot (some i) info s = (failed, s)
create_unless e drive start_lba size_sectors part_type free_slot none info s =
    add_at e drive start_lba size_sectors part_type free_slot info s

abbrev pub create_in :
    Env
    → (drive start_lba size_sectors part_type : ℕ) → Option ℕ
    → Disk
    → Sectors
    → Result × Sectors
create_in e drive start_lba size_sectors part_type none info s = (failed, s)
create_in e drive start_lba size_sectors part_type (some free_slot) info s =
    create_unless e drive start_lba size_sectors part_type free_slot
      (find_from max_partitions 0 (blocks start_lba size_sectors info)) info s

abbrev pub create_on :
    Env → (drive start_lba size_sectors part_type : ℕ) → Option Disk → Sectors → Result × Sectors
create_on e drive start_lba size_sectors part_type none s = (failed, s)
create_on e drive start_lba size_sectors part_type (some info) s =
    create_in e drive start_lba size_sectors part_type (find_from max_partitions 0 (is_empty info))
      info s

-- partition_create.
unfoldable pub create :
    Env → (drive start_lba size_sectors part_type : ℕ) → Sectors → Result × Sectors
create e drive start_lba size_sectors part_type s =
    if not e.allowed
    then (failed, s)
    else create_on e drive start_lba size_sectors part_type (read_table e drive s) s

abbrev pub delete_on : Env → (drive partition_num : ℕ) → Option Disk → Sectors → Result × Sectors
delete_on e drive partition_num none s = (failed, s)
delete_on e drive partition_num (some info) s =
    if is_empty info partition_num
    then (failed, s)
    else write_table e drive
        (record info {
          partition_count = (info.partition_count + 255) % 256;
          partitions =
              update info.partitions partition_num
                (record no_part { drive = drive; partition_num = partition_num });
        })
        s

-- partition_delete.
unfoldable pub delete : Env → (drive partition_num : ℕ) → Sectors → Result × Sectors
delete e drive partition_num s =
    if leb max_partitions partition_num || not e.allowed
    then (failed, s)
    else delete_on e drive partition_num (read_table e drive s) s

abbrev pub boot_on : Env → (drive partition_num : ℕ) → Option Disk → Sectors → Result × Sectors
boot_on e drive partition_num none s = (failed, s)
boot_on e drive partition_num (some info) s =
    write_table e drive
      (record info {
        partitions = λ i. record (info.partitions i) { is_bootable = i == partition_num };
      })
      s

-- partition_set_bootable.
unfoldable pub set_bootable : Env → (drive partition_num : ℕ) → Sectors → Result × Sectors
set_bootable e drive partition_num s =
    if leb max_partitions partition_num || not e.allowed
    then (failed, s)
    else boot_on e drive partition_num (read_table e drive s) s
