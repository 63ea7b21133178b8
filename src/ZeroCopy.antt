-- ===== src/ZeroCopy.antt =====
-- The zero-copy files of src/utilities/zero_copy.c: a table of files that are held in memory whole, read
-- and written there, and written back to disk when they are closed or synchronised.
-- A file's bytes stand with its handle. What the capability check, malloc and the filesystem answer to
-- a call is the call's `Env`; the addresses given to free and the contents written to disk are kept as
-- lists, the latest first. A program's own writes through a mapping, the scheduler's accounts and the
-- messages are not kept. A descriptor or an offset below 0 is its 32-bit two's complement.
pub mod Io
pub mod Maps
pub mod Move
pub mod Sound
pub mod Kept
pub mod History
pub mod Access
pub mod RoundTrip
pub mod ReadBack
pub mod Full
pub mod Buffers
pub mod InPlace
pub mod Links
use eyn_os.Base.{
  ◌++◌, ℕ, zero, suc, ◌+◌, ◌-◌, ◌*◌, ◌%◌, ◌^◌, Bool, true, false, not, ◌&&◌, ◌||◌, Option, none,
  some, List, [], ◌∷◌, leb, ltb, ◌==◌, if◌then◌else◌, update, bit_and, min,
}

abbrev pub read_only : ℕ
read_only = 0x01

abbrev pub write_only : ℕ
write_only = 0x02

abbrev pub read_write : ℕ
read_write = 0x03

abbrev pub max_anon_maps : ℕ
max_anon_maps = 32

-- -1, as an int or a size_t.
abbrev pub failed : ℕ
failed = 0xFFFF_FFFF

-- The parts of `eynfs_dir_entry_t` that are read or set here.
pub record Entry : Type 0 where
  pub is_file : Bool
  pub size : ℕ
  pub first_block : ℕ

-- `zero_copy_file_t`, with the bytes at `mapped_address`.
pub record File : Type 0 where
  pub mapped_address : ℕ
  pub file_size : ℕ
  pub current_offset : ℕ
  pub drive : ℕ
  pub flags : ℕ
  pub block_start : ℕ
  pub block_count : ℕ
  pub access_count : ℕ
  pub dirty : Bool
  pub parent_block : ℕ
  pub entry_index : ℕ
  pub entry : Entry
  pub bytes : ℕ → ℕ

pub record AnonMap : Type 0 where
  pub addr : ℕ
  pub length : ℕ

-- What was handed to `eynfs_write_file`.
pub record Saved : Type 0 where
  pub drive : ℕ
  pub parent_block : ℕ
  pub entry_index : ℕ
  pub size : ℕ
  pub bytes : ℕ → ℕ

pub record ZeroCopy : Type 0 where
  pub ready : Bool
  pub files : ℕ → File
  pub max_files : ℕ
  pub fd_count : ℕ
  pub operations : ℕ
  pub anon_maps : ℕ → AnonMap
  pub anon_count : ℕ
  pub freed : List ℕ
  pub saved : List Saved

-- The answers to one call: the capability checks, the pointer from malloc (0 for NULL) with the bytes
-- it points at, and the filesystem's.
pub record Env : Type 0 where
  pub allowed : Bool
  pub may_allocate : Bool
  pub new_buf : ℕ
  pub fresh : ℕ → ℕ
  pub superblock : Bool
  pub written : Bool
  pub entry_after : Entry

-- `memcpy(dest + off, src, n)` and `memset`.
abbrev pub copy_to : (dest : ℕ → ℕ) (off : ℕ) (src : ℕ → ℕ) (n : ℕ) → ℕ → ℕ
copy_to dest off src n i = if leb off i && ltb i (off + n) then src (i - off) else dest i

abbrev pub zeros : ℕ → ℕ
zeros i = 0

abbrev pub blank_file : File
blank_file = record {
  mapped_address = 0;
  file_size = 0;
  current_offset = 0;
  drive = 0;
  flags = 0;
  block_start = 0;
  block_count = 0;
  access_count = 0;
  dirty = false;
  parent_block = 0;
  entry_index = 0;
  entry = record { is_file = false; size = 0; first_block = 0 };
  bytes = zeros;
}

abbrev pub good_fd : ZeroCopy → ℕ → Bool
good_fd s fd = not (leb (2 ^ 31) fd) && ltb fd s.fd_count

abbrev pub set_file : ℕ → File → ZeroCopy → ZeroCopy
set_file fd f s = record s { files = update s.files fd f }

abbrev pub count_operation : ZeroCopy → ZeroCopy
count_operation s = record s { operations = (s.operations + 1) % 2 ^ 32 }

abbrev pub has : (flags mask : ℕ) → Bool
has flags mask = not (bit_and flags mask == 0)

abbrev pub readable : ℕ → Bool
readable flags = has flags read_only || has flags read_write

abbrev pub writable : ℕ → Bool
writable flags = has flags write_only || has flags read_write

-- `free`, if there is something to free.
abbrev pub free_buffer : ℕ → ZeroCopy → ZeroCopy
free_buffer addr s = if addr == 0 then s else record s { freed = addr ∷ s.freed }

-- `get_max_zero_copy_files`, by the memory there is.
abbrev pub max_zero_copy_files : ℕ → ℕ
max_zero_copy_files memory =
    if ltb memory (8 * 1024 * 1024)
    then 2
    else if ltb memory (32 * 1024 * 1024)
    then 8
    else if ltb memory (128 * 1024 * 1024)
    then 12
    else 16

-- The table is empty, for at most `max` files.
abbrev pub emptied : (max : ℕ) → ZeroCopy → ZeroCopy
emptied max s = record {
  ready = true;
  files = λ fd. blank_file;
  max_files = max;
  fd_count = 0;
  operations = 0;
  anon_maps = λ i. record { addr = 0; length = 0 };
  anon_count = 0;
  freed = s.freed;
  saved = s.saved;
}

-- `zero_copy_init`; the second answer of malloc is for the smaller table.
unfoldable pub init : (allowed : Bool) (memory first second : ℕ) → ZeroCopy → ZeroCopy
init allowed memory first second s =
    if not allowed
    then s
    else if not (first == 0)
    then emptied (max_zero_copy_files memory) s
    else if not (second == 0)
    then emptied 2 s
    else record s { ready = false; max_files = 0 }

-- What `eynfs_traverse_path` found, and what `eynfs_read_file` then read of it.
pub record Found : Type 0 where
  pub entry : Entry
  pub parent_block : ℕ
  pub entry_index : ℕ
  pub bytes_read : ℕ
  pub bytes : ℕ → ℕ

-- The handle of a file that was read whole.
abbrev pub opened_file : Env → (drive flags : ℕ) → Found → File
opened_file e drive flags found = record {
  mapped_address = e.new_buf;
  file_size = found.entry.size;
  current_offset = 0;
  drive = drive;
  flags = flags;
  block_start = found.entry.first_block;
  block_count = 0;
  access_count = 0;
  dirty = false;
  parent_block = found.parent_block;
  entry_index = found.entry_index;
  entry = found.entry;
  bytes = found.bytes;
}

abbrev pub opened : Env → (drive flags : ℕ) → Found → ZeroCopy → ℕ × ZeroCopy
opened e drive flags found s =
    if found.bytes_read == found.entry.size
    then (
      s.fd_count,
      record (set_file s.fd_count (opened_file e drive flags found) s) {
        fd_count = (s.fd_count + 1) % 256;
      },
    )
    else (failed, free_buffer e.new_buf s)

abbrev pub open_found : Env → (drive flags : ℕ) → Option Found → ZeroCopy → ℕ × ZeroCopy
open_found e drive flags none s = (failed, s)
open_found e drive flags (some found) s =
    if found.entry.is_file && not (e.new_buf == 0)
    then opened e drive flags found s
    else (failed, s)

-- `zero_copy_open`, on the drive that is in use.
unfoldable pub open_file : Env → (drive flags : ℕ) → Option Found → ZeroCopy → ℕ × ZeroCopy
open_file e drive flags found s =
    if e.allowed && s.ready && not (leb s.max_files s.fd_count) && e.superblock
    then open_found e drive flags found s
    else (failed, s)

-- `zero_copy_writeback`: whether it succeeded, the file, and what was written.
abbrev pub written_file : Env → File → File
written_file e f =
    if e.written
    then record f { entry = e.entry_after; block_start = e.entry_after.first_block; dirty = false }
    else record f { entry = e.entry_after }

abbrev pub saved_file : File → Saved
saved_file f = record {
  drive = f.drive;
  parent_block = f.parent_block;
  entry_index = f.entry_index;
  size = f.file_size;
  bytes = f.bytes;
}

unfoldable pub writeback : Env → File → Bool × (File × List Saved)
writeback e f =
    if not f.dirty || not (writable f.flags)
    then (true, (f, []))
    else if (f.mapped_address == 0) && not (f.file_size == 0)
    then (false, (f, []))
    else if not e.superblock
    then (false, (f, []))
    else (e.written, (written_file e f, saved_file f ∷ []))

abbrev pub log : List Saved → ZeroCopy → ZeroCopy
log new s = record s { saved = new ++ s.saved }

abbrev pub status : Bool → ℕ
status ok = if ok then 0 else failed

-- The handle is cleared and its buffer freed.
abbrev pub drop_file : ℕ → ZeroCopy → ZeroCopy
drop_file fd s = set_file fd blank_file (free_buffer (s.files fd).mapped_address s)

abbrev pub close_written : ℕ → Bool × (File × List Saved) → ZeroCopy → ℕ × ZeroCopy
close_written fd (ok, (f, new)) s = (status ok, log new (drop_file fd (set_file fd f s)))

-- `zero_copy_close`.
unfoldable pub close : Env → ℕ → ZeroCopy → ℕ × ZeroCopy
close e fd s = if good_fd s fd then close_written fd (writeback e (s.files fd)) s else (failed, s)
