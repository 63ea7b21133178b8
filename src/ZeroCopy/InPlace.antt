-- ===== src/ZeroCopy/InPlace.antt =====
-- `eynfs_zero_copy_write` of src/utilities/zero_copy.c: writing inside a file without changing its chain
-- of blocks. A block's first four bytes are the number of the next block, 0 at the end.
-- Which blocks the block cache can read and write is given; a write that it refuses changes nothing.
-- The caller's pointer is not NULL.
use eyn_os.Base.{
  ℕ, zero, suc, ◌+◌, ◌-◌, ◌*◌, ◌^◌, Bool, not, ◌||◌, Option, none, some, ltb, ◌==◌, if◌then◌else◌,
  update, min,
}
use eyn_os.ZeroCopy.{Entry, failed, copy_to}

-- The bytes of a block behind the link.
abbrev pub payload : ℕ
payload = 508

-- The blocks of the drive, by number.
abbrev pub Disk : Type 0
Disk = ℕ → ℕ → ℕ

-- Which blocks `eynfs_cache_get_block` and `eynfs_cache_write_block` serve.
pub record Cache : Type 0 where
  pub reads : ℕ → Bool
  pub writes : ℕ → Bool

abbrev pub next_block : (ℕ → ℕ) → ℕ
next_block b = b 0 + b 1 * 2 ^ 8 + b 2 * 2 ^ 16 + b 3 * 2 ^ 24

-- Where the write starts: a block and a place behind its link, or a block that cannot be read.
pub data Start : Type 0 where
  at : (block skip : ℕ) → Start
  unread : Start

-- The blocks before the offset are passed.
unfoldable pub skip_blocks : ℕ → Cache → Disk → (block skip : ℕ) → Option Start
skip_blocks zero c d block skip = none
skip_blocks (suc f) c d block skip =
    let later = skip_blocks f c d (next_block (d block)) (skip - payload) in
    if (block == 0) || ltb skip payload
    then some (at block skip)
    else if not (c.reads block)
    then some unread
    else later

-- A block with a piece of the caller's bytes at a place behind its link.
abbrev pub put_piece : Disk → (block place : ℕ) → (ℕ → ℕ) → (chunk : ℕ) → Disk
put_piece d block place source chunk = update d block (copy_to (d block) (4 + place) source chunk)

-- The blocks from the second on: `total` bytes are written, `left` are to come.
unfoldable pub write_rest :
    ℕ → Cache → Disk → (block : ℕ) → (ℕ → ℕ) → (total left : ℕ) → Option (ℕ × Disk)
write_rest zero c d block source total left = none
write_rest (suc f) c d block source total left =
    let chunk = min payload left in
    let later =
      write_rest f c (put_piece d block 0 (λ i. source (total + i)) chunk) (next_block (d block))
        source (total + chunk) (left - chunk) in
    if (block == 0) || (left == 0)
    then some (total, d)
    else if not (c.reads block) || not (c.writes block)
    then some (failed, d)
    else later

-- The first block, from the place on.
abbrev pub write_from : ℕ → Cache → Disk → (ℕ → ℕ) → (size : ℕ) → Option Start → Option (ℕ × Disk)
write_from f c d source size none = none
write_from f c d source size (some unread) = some (failed, d)
write_from f c d source size (some (at block skip)) =
    if (block == 0) || (size == 0)
    then write_rest f c d block source 0 size
    else if not (c.reads block) || not (c.writes block)
    then some (failed, d)
    else let chunk = min (payload - skip) size in
      write_rest f c (put_piece d block skip source chunk) (next_block (d block)) source chunk
        (size - chunk)

-- `eynfs_zero_copy_write`, with fuel for its loops.
unfoldable pub write_in_place :
    ℕ → (allowed : Bool) → Cache → Disk → Entry → (ℕ → ℕ) → (size offset : ℕ) → Option (ℕ × Disk)
write_in_place f allowed c d entry source size offset =
    if not entry.is_file || ltb entry.size offset || ltb (entry.size - offset) size || not allowed
    then some (failed, d)
    else write_from f c d source size (skip_blocks f c d entry.first_block offset)
