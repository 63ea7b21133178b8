-- ===== src/Tests/PartitionTests.antt =====
-- Partitions created on an empty disk in src/drivers/partition.c.
use eyn_os.Base.{ℕ, ◌≡◌, ◌≢◌, ◌-◌, ◌^◌, ◌<◌, refl, true, none, some, List, [], ◌∷◌, arith, update}
use eyn_os.Base.Loop.{for_range, find_from}
use eyn_os.Partition.{
  Disk, Env, Sectors, answered, no_disk, read_table, write_table, create, is_empty, blocks,
  new_part,
}
use eyn_os.Partition.Entry.{
  Part, no_part, table_offset, max_partitions, put_entry, read_word, is_present, parse_entry,
}
use eyn_os.Partition.Table.{SameEntry, stored_part}
use eyn_os.Partition.Read.{read_table-write_table}
use eyn_os.Partition.Tidy.{Sound}
use eyn_os.Partition.History.{Op, creates, deletes, boots, run, run-Sound}
use eyn_os.Partition.Create.{read_table-create}

abbrev disk_answers : Env
disk_answers = record {
  allowed = true;
  reads = true;
  writes = true;
  spoiled = λ a. 0;
  detect_fs = λ drive at. 0;
}

abbrev blank_disk : Sectors
blank_disk = λ drive a. 0

blank-Sound : Sound 0 (blank_disk 0)
unfolding is_present read_word
blank-Sound = (
  λ a. omega arith,
  record {
    ends = λ i l p. absurd (ground (arith, p));
    apart = λ i j l m n p q. absurd (ground (arith, p));
  },
)

abbrev ops : List Op
ops = creates 2048 4096 0xEF ∷ creates 8192 1000 0x83 ∷ boots 0 ∷ deletes 1 ∷ []

run-Sound_example : Sound 0 (run disk_answers 0 ops blank_disk 0)
run-Sound_example =
    run-Sound disk_answers 0 ops blank_disk refl refl refl
      ((omega arith, omega arith), ((omega arith, omega arith), (tt, (tt, tt)))) blank-Sound

abbrev a_part : Part
a_part = record no_part {
  part_type = 0xEF;
  is_bootable = true;
  lba_start = 2048;
  sector_count = 0x0102_0304;
}

abbrev a_disk : Disk
a_disk = record (no_disk 0) { partitions = λ i. a_part }

read_table-write_table_example :
    (t : Sectors) × (d : Disk) × (write_table disk_answers 0 a_disk blank_disk ≡ (answered 0, t))
    × (read_table disk_answers 0 t ≡ some d)
    × ((i : ℕ) → i < max_partitions → SameEntry (d.partitions i) (stored_part a_part))
    × ((a : ℕ) → a < table_offset → t 0 a ≡ 0)
read_table-write_table_example =
    read_table-write_table disk_answers 0 a_disk blank_disk refl refl refl
      (λ i l. record { type = omega arith; start = omega arith; count = omega arith })

abbrev seen : Disk
seen = record (no_disk 0) {
  partitions =
      update
        (update
          (update (update (λ i. no_part) 0 (parse_entry 0 (λ a. 0) 0)) 1 (parse_entry 0 (λ a. 0) 1))
          2 (parse_entry 0 (λ a. 0) 2))
        3 (parse_entry 0 (λ a. 0) 3);
}

read_blank : read_table disk_answers 0 blank_disk ≡ some seen
unfolding read_table for_range is_present read_word
read_blank = refl

slot_0 : find_from max_partitions 0 (is_empty seen) ≡ some 0
unfolding find_from
slot_0 = refl

nothing_in_the_way : find_from max_partitions 0 (blocks 2048 4096 seen) ≡ none
unfolding find_from
nothing_in_the_way = refl

read_table-create_example :
    (t : Sectors) × (after : Disk) × (create disk_answers 0 2048 4096 0xEF blank_disk
      ≡ (answered 0, t))
    × (read_table disk_answers 0 t ≡ some after)
    × (0 < max_partitions)
    × SameEntry (after.partitions 0) (new_part 2048 4096 0xEF (seen.partitions 0))
    × ((i : ℕ)
        → i < max_partitions
        → i ≢ 0
        → SameEntry (after.partitions i) (stored_part (seen.partitions i)))
read_table-create_example =
    read_table-create disk_answers 0 2048 4096 0xEF 0 blank_disk seen refl refl refl
      (λ a. omega arith) (omega arith) (λ e. omega (arith, e)) (omega arith) (omega arith)
      (omega arith) read_blank slot_0 nothing_in_the_way

-- A partition whose end wraps around meets the one that is there, and is created all the same.
abbrev one_partition : Sectors
one_partition = (create disk_answers 0 2048 4096 0xEF blank_disk).1

create_wraps : (create disk_answers 0 100 (2 ^ 32 - 16) 0x83 one_partition).0 ≡ answered 1
unfolding create read_table write_table for_range find_from put_entry read_word is_present
create_wraps = refl

-- No sectors: the slot is answered, and stays empty.
create_nothing : (create disk_answers 0 2048 0 0x83 blank_disk).0 ≡ answered 0
unfolding create read_table write_table for_range find_from put_entry read_word is_present
create_nothing = refl
