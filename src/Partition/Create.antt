-- ===== src/Partition/Create.antt =====
-- What partition_create of src/drivers/partition.c adds.
use eyn_os.Base.{
  ℕ, ◌+◌, ◌%◌, ◌^◌, ◌<◌, ◌≡◌, ◌≢◌, refl, ap, sym, ◌∙◌, subst, true, false, ltb, ◌==◌, arith, update,
  update_self, update_ne, Option, none, some,
}
use eyn_os.Base.Loop.{find_from, find_from-some}
use eyn_os.Partition.{
  Disk, Env, Sectors, answered, read_table, is_empty, blocks, new_part, create, answering,
}
use eyn_os.Partition.Entry.{Part, is_present, max_partitions, parse_entry}
use eyn_os.Partition.Table.{SameEntry, stored_part}
use eyn_os.Partition.Read.{read_table-entries, read_table-write_table}
use eyn_os.Partition.Replace.{InWidth-update}
use eyn_os.Partition.Tidy.{Bytes, parse_entry-InWidth}

-- A partition with a type and a sector is there.
is_present-new :
    (start_lba size_sectors part_type : ℕ) (p : Part)
    → part_type ≢ 0
    → 0 < size_sectors
    → stored_part (new_part start_lba size_sectors part_type p)
      ≡ new_part start_lba size_sectors part_type p
unfolding is_present
is_present-new start_lba size_sectors part_type p n l =
    let typed : (part_type == 0) ≡ false = ground arith in
    let sized : ltb 0 size_sectors ≡ true = ground arith in simp (typed, sized) refl

-- When the disk answers and its first sector has bytes, the first entry `n` without a type and no
-- partition in the way make partition_create return `n`, for a type of 8 bits that is not 0, a place of 32
-- bits and a size of 32 bits that is not 0; reading then gives the new partition, not bootable, at `n`, and
-- every other entry as it was (an entry with a type and no sectors is empty).
pub read_table-create :
    (e : Env) (drive start_lba size_sectors part_type n : ℕ) (s : Sectors) (d : Disk)
    → e.allowed ≡ true
    → e.reads ≡ true
    → e.writes ≡ true
    → Bytes (s drive)
    → part_type < 2 ^ 8
    → part_type ≢ 0
    → start_lba < 2 ^ 32
    → size_sectors < 2 ^ 32
    → 0 < size_sectors
    → read_table e drive s ≡ some d
    → find_from max_partitions 0 (is_empty d) ≡ some n
    → find_from max_partitions 0 (blocks start_lba size_sectors d) ≡ none
    → (t : Sectors) × (after : Disk) × (create e drive start_lba size_sectors part_type s
        ≡ (answered n, t))
      × (read_table e drive t ≡ some after)
      × (n < max_partitions)
      × SameEntry (after.partitions n) (new_part start_lba size_sectors part_type (d.partitions n))
      × ((i : ℕ)
          → i < max_partitions
          → i ≢ n
          → SameEntry (after.partitions i) (stored_part (d.partitions i)))
unfolding create
read_table-create e drive start_lba size_sectors part_type n s d a r w b c typed f g sized found
      slot clear =
    let q = new_part start_lba size_sectors part_type (d.partitions n) in
    let info : Disk = record d {
      partition_count = (d.partition_count + 1) % 256;
      partitions = update d.partitions n q;
    } in
    let width = λ (i : ℕ) (l : i < max_partitions).
      parse_entry-InWidth drive (s drive) i (d.partitions i) b (same i l) in
    let back =
      read_table-write_table e drive info s a r w
        (InWidth-update d.partitions n q width (record { type = c; start = f; count = g })) in
    let inside = find_from-some max_partitions 0 (is_empty d) n slot in
    (
      back.0,
      back.1,
      simp (a, found, slot, clear) (ap (answering n) back.2),
      back.3,
      inside.1,
      subst (SameEntry (back.1.partitions n))
          (ap stored_part (update_self d.partitions n q)
            ∙ is_present-new start_lba size_sectors part_type (d.partitions n) typed sized)
          (back.4 n inside.1),
      λ i l o.
          subst (SameEntry (back.1.partitions i))
            (ap stored_part (update_ne d.partitions n i q (λ x. o (sym x)))) (back.4 i l),
    )
  where
    same : (i : ℕ) → i < max_partitions → SameEntry (d.partitions i) (parse_entry drive (s drive) i)
    same i l =
        let read = read_table-entries e drive s a r in
        let one = ap (if_some d) (sym read.1 ∙ found) in
        subst (λ (x : Disk). SameEntry (x.partitions i) (parse_entry drive (s drive) i)) one
          (read.2 i l)
      where
        if_some : Disk → Option Disk → Disk
        if_some x none = x
        if_some x (some y) = y
