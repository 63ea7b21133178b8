-- ===== src/Partition/History.antt =====
-- Any calls of partition_create, partition_delete and partition_set_bootable of
-- src/drivers/partition.c on one drive.
use eyn_os.Base.{
  ℕ, ◌+◌, ◌%◌, ◌^◌, ◌<◌, ◌≡◌, refl, ap, sym, ◌∙◌, subst, true, leb, ◌==◌, arith, Bool-cases, inl,
  inr, update, update_self, Option, none, some, List, [], ◌∷◌,
}
use eyn_os.Base.Loop.{find_from, find_from-none}
use eyn_os.Partition.{
  Disk, Env, Sectors, Result, write_table, with_table, is_empty, blocks, new_part, create,
  create_in, add_at, delete, set_bootable,
}
use eyn_os.Partition.Entry.{Part, no_part, max_partitions, parse_entry}
use eyn_os.Partition.Table.{InWidth, SameEntry}
use eyn_os.Partition.Read.{read_table-entries, write_table_lem}
use eyn_os.Partition.Tidy.{Tidy, Tidy-same, Sound, with_table-Sound, parse_entry-InWidth}
use eyn_os.Partition.Replace.{
  overlaps-Apart, is_present-is_empty, Tidy-update, InWidth-update, no_part-absent, is_present-boot,
  answering-state,
}

-- One call on a drive.
pub data Op : Type 0 where
  creates : (start_lba size_sectors part_type : ℕ) → Op
  deletes : (partition_num : ℕ) → Op
  boots : (partition_num : ℕ) → Op

abbrev pub run_op : Env → (drive : ℕ) → Op → Sectors → Result × Sectors
run_op e drive (creates start_lba size_sectors part_type) s =
    create e drive start_lba size_sectors part_type s
run_op e drive (deletes n) s = delete e drive n s
run_op e drive (boots n) s = set_bootable e drive n s

-- A new partition ends below 2^32, and its type has 8 bits.
abbrev pub Fits : Op → Type 0
Fits (creates start_lba size_sectors part_type) =
    (start_lba + size_sectors < 2 ^ 32) × (part_type < 2 ^ 8)
Fits (deletes n) = Unit {0}
Fits (boots n) = Unit {0}

module _ (e : Env) (drive : ℕ) (allowed : e.allowed ≡ true) (reads : e.reads ≡ true)
    (writes : e.writes ≡ true) where
  -- A tidy table stays tidy when one entry is replaced by an empty one.
  Sound-written :
      (info : Disk) (s : Sectors)
      → Sound drive (s drive)
      → ((i : ℕ) → i < max_partitions → InWidth (info.partitions i))
      → Tidy info.partitions
      → Sound drive ((write_table e drive info s).1 drive)
  Sound-written info s h w t =
      let sector = with_table info (s drive) in
      subst (Sound drive)
        (sym (
          ap (λ (r : Result × Sectors). r.1 drive)
            (write_table_lem e drive info s allowed reads writes)
          ∙ update_self s drive sector))
        (with_table-Sound drive info (s drive) h.0 w t)

  -- What a call reads.
  module _ (s : Sectors) (h : Sound drive (s drive)) (d : Disk)
      (same : (i : ℕ)
        → i < max_partitions
        → SameEntry (d.partitions i) (parse_entry drive (s drive) i)) where
    width : (i : ℕ) → i < max_partitions → InWidth (d.partitions i)
    width i l = parse_entry-InWidth drive (s drive) i (d.partitions i) h.0 (same i l)

    tidy : Tidy d.partitions
    tidy = Tidy-same d.partitions (parse_entry drive (s drive)) same h.1

    added :
        (start_lba size_sectors part_type n : ℕ)
        → start_lba + size_sectors < 2 ^ 32
        → part_type < 2 ^ 8
        → find_from max_partitions 0 (blocks start_lba size_sectors d) ≡ none
        → Sound drive ((add_at e drive start_lba size_sectors part_type n d s).1 drive)
    added start_lba size_sectors part_type n b c clear =
        let q = new_part start_lba size_sectors part_type (d.partitions n) in
        let after : Disk = record d {
          partition_count = (d.partition_count + 1) % 256;
          partitions = update d.partitions n q;
        } in
        let written =
          Sound-written after s h
            (InWidth-update d.partitions n q width
              (record { type = c; start = omega arith; count = omega arith }))
            (Tidy-update d.partitions n q tidy (λ p. b)
              (λ j l p r.
                let free =
                  find_from-none max_partitions 0 (blocks start_lba size_sectors d) j clear
                    (omega arith) (omega arith) in
                let there = is_present-is_empty (d.partitions j) r in
                overlaps-Apart start_lba size_sectors (d.partitions j) b (tidy.ends j l r)
                  (simp there at free))) in
        subst (λ (t : Sectors). Sound drive (t drive))
          (sym (answering-state n (write_table e drive after s))) written

    create-Sound :
        (start_lba size_sectors part_type : ℕ) (slot blocked : Option ℕ)
        → start_lba + size_sectors < 2 ^ 32
        → part_type < 2 ^ 8
        → find_from max_partitions 0 (is_empty d) ≡ slot
        → find_from max_partitions 0 (blocks start_lba size_sectors d) ≡ blocked
        → Sound drive (
            (create_in e drive start_lba size_sectors part_type
                (find_from max_partitions 0 (is_empty d))
                d
                s).1
              drive)
    create-Sound start_lba size_sectors part_type none blocked b c f g = simp f h
    create-Sound start_lba size_sectors part_type (some n) (some i) b c f g = simp (f, g) h
    create-Sound start_lba size_sectors part_type (some n) none b c f g =
        simp (f, g) (added start_lba size_sectors part_type n b c g)

    delete-Sound :
        (n count : ℕ)
        → Sound drive (
            (write_table e drive
                (record d {
                  partition_count = count;
                  partitions =
                      update d.partitions n (record no_part { drive = drive; partition_num = n });
                })
                s).1
              drive)
    delete-Sound n count =
        let q : Part = record no_part { drive = drive; partition_num = n } in
        let gone = no_part-absent drive n in
        let after : Disk = record d {
          partition_count = count;
          partitions = update d.partitions n q;
        } in
        Sound-written after s h
          (InWidth-update d.partitions n q width
            (record { type = omega arith; start = omega arith; count = omega arith }))
          (Tidy-update d.partitions n q tidy (λ p. absurd (ground (arith, p, gone)))
            (λ j l p r. absurd (ground (arith, p, gone))))

    boot-Sound :
        (n : ℕ)
        → Sound drive (
            (write_table e drive
                (record d { partitions = λ i. record (d.partitions i) { is_bootable = i == n } })
                s).1
              drive)
    boot-Sound n =
        let after : Disk = record d {
          partitions = λ i. record (d.partitions i) { is_bootable = i == n };
        } in
        Sound-written after s h
          (λ i l. record {
            type = (width i l).type;
            start = (width i l).start;
            count = (width i l).count;
          })
          (record {
            ends = λ i l p. tidy.ends i l (sym (is_present-boot (d.partitions i) (i == n)) ∙ p);
            apart = λ i j l m o p r.
                tidy.apart i j l m o (sym (is_present-boot (d.partitions i) (i == n)) ∙ p)
                  (sym (is_present-boot (d.partitions j) (j == n)) ∙ r);
          })

  -- One call keeps the table tidy.
  run_op-Sound :
      (op : Op) (s : Sectors)
      → Fits op
      → Sound drive (s drive)
      → Sound drive ((run_op e drive op s).1 drive)
  unfolding create delete set_bootable
  run_op-Sound (creates start_lba size_sectors part_type) s (b, c) h =
      let found = read_table-entries e drive s allowed reads in
      simp (allowed, found.1)
        (create-Sound s h found.0 found.2 start_lba size_sectors part_type
          (find_from max_partitions 0 (is_empty found.0))
          (find_from max_partitions 0 (blocks start_lba size_sectors found.0)) b c refl refl)
  run_op-Sound (deletes n) s f h =
      let found = read_table-entries e drive s allowed reads in
      elim (Bool-cases (leb max_partitions n)) [
        | inl x ↦ simp x h
        | inr x ↦
            simp (x, allowed, found.1)
              (elim (Bool-cases (is_empty found.0 n)) [
                | inl y ↦ simp y h
                | inr y ↦
                    simp y
                      (delete-Sound s h found.0 found.2 n ((found.0.partition_count + 255) % 256))
              ])
      ]
  run_op-Sound (boots n) s f h =
      let found = read_table-entries e drive s allowed reads in
      elim (Bool-cases (leb max_partitions n)) [
        | inl x ↦ simp x h
        | inr x ↦ simp (x, allowed, found.1) (boot-Sound s h found.0 found.2 n)
      ]

abbrev pub run : Env → (drive : ℕ) → List Op → Sectors → Sectors
run e drive [] s = s
run e drive (op ∷ ops) s = run e drive ops (run_op e drive op s).1

abbrev pub AllFit : List Op → Type 0
AllFit [] = Unit {0}
AllFit (op ∷ ops) = Fits op × AllFit ops

-- While the disk answers, any calls of partition_create (with an end below 2^32), partition_delete and
-- partition_set_bootable keep the partitions of a drive from meeting, and their ends below 2^32.
pub run-Sound :
    (e : Env) (drive : ℕ) (ops : List Op) (s : Sectors)
    → e.allowed ≡ true
    → e.reads ≡ true
    → e.writes ≡ true
    → AllFit ops
    → Sound drive (s drive)
    → Sound drive (run e drive ops s drive)
run-Sound e drive [] s a r w f h = h
run-Sound e drive (op ∷ ops) s a r w (f, fs) h =
    run-Sound e drive ops (run_op e drive op s).1 a r w fs (run_op-Sound e drive a r w op s f h)
