-- ===== src/ZeroCopy/Io.antt =====
-- Reading, writing and seeking in the zero-copy files of src/utilities/zero_copy.c.
use eyn_os.Base.{
  ℕ, ◌+◌, ◌-◌, ◌%◌, ◌^◌, true, not, ◌&&◌, ◌||◌, Option, none, some, leb, ltb, ◌==◌, if◌then◌else◌,
  min,
}
use eyn_os.ZeroCopy.{
  File, ZeroCopy, Env, failed, copy_to, zeros, good_fd, set_file, count_operation, readable,
  writable, free_buffer,
}

-- The bytes that are read from the file go to the start of the caller's buffer.
abbrev pub read_some : (fd : ℕ) → (ℕ → ℕ) → (n : ℕ) → ZeroCopy → ℕ × (ℕ → ℕ) × ZeroCopy
read_some fd buf n s =
    let f = s.files fd in
    (
      n,
      copy_to buf 0 (λ i. f.bytes (f.current_offset + i)) n,
      count_operation (
          set_file fd
            (record f {
              current_offset = (f.current_offset + n) % 2 ^ 32;
              access_count = (f.access_count + 1) % 2 ^ 32;
            })
            s),
    )

-- `zero_copy_read`: its result, the caller's buffer and the state.
unfoldable pub read : Env → (fd : ℕ) → (ℕ → ℕ) → (count : ℕ) → ZeroCopy → ℕ × (ℕ → ℕ) × ZeroCopy
read e fd buf count s =
    let f = s.files fd in
    if e.allowed && good_fd s fd && readable f.flags
    then (if leb f.file_size f.current_offset
        then (0, buf, s)
        else read_some fd buf (min count (f.file_size - f.current_offset)) s)
    else (failed, buf, s)

-- A larger buffer with the old bytes.
abbrev pub kept_bytes : Env → File → ℕ → ℕ
kept_bytes e f =
    if (f.mapped_address == 0) || (f.file_size == 0)
    then e.fresh
    else copy_to e.fresh 0 f.bytes f.file_size

-- The file with a larger buffer: the old bytes, and 0 behind them.
abbrev pub extended : Env → (end_off : ℕ) → File → File
extended e end_off f = record f {
  mapped_address = e.new_buf;
  file_size = end_off;
  entry = record f.entry { size = end_off };
  bytes = copy_to (kept_bytes e f) f.file_size zeros (end_off - f.file_size);
}

abbrev pub extend : Env → (fd end_off : ℕ) → ZeroCopy → ZeroCopy
extend e fd end_off s =
    set_file fd (extended e end_off (s.files fd)) (free_buffer (s.files fd).mapped_address s)

abbrev pub stored : File → (ℕ → ℕ) → (count : ℕ) → File
stored f buf count = record f {
  bytes = copy_to f.bytes f.current_offset buf count;
  current_offset = (f.current_offset + count) % 2 ^ 32;
  access_count = (f.access_count + 1) % 2 ^ 32;
  dirty = true;
}

abbrev pub store : (fd : ℕ) → (ℕ → ℕ) → (count : ℕ) → ZeroCopy → ℕ × ZeroCopy
store fd buf count s = (count, count_operation (set_file fd (stored (s.files fd) buf count) s))

abbrev pub write_at : Env → (fd : ℕ) → (ℕ → ℕ) → (count : ℕ) → ZeroCopy → ℕ × ZeroCopy
write_at e fd buf count s =
    let f = s.files fd in
    if ltb f.file_size (f.current_offset + count)
    then (if e.may_allocate && not (e.new_buf == 0)
        then store fd buf count (extend e fd (f.current_offset + count) s)
        else (failed, s))
    else store fd buf count s

-- `zero_copy_write`, for a count that a size_t of 32 bits holds.
unfoldable pub write : Env → (fd : ℕ) → (ℕ → ℕ) → (count : ℕ) → ZeroCopy → ℕ × ZeroCopy
write e fd buf count s =
    let f = s.files fd in
    if e.allowed
      && good_fd s fd
      && writable f.flags
      && not (ltb (0xFFFF_FFFF - count) f.current_offset)
    then write_at e fd buf count s
    else (failed, s)

-- `zero_copy_vmsplice` is a write, whose result is made an int.
unfoldable pub vmsplice : Env → (fd : ℕ) → (ℕ → ℕ) → (count flags : ℕ) → ZeroCopy → ℕ × ZeroCopy
vmsplice e fd buf count flags s = write e fd buf count s

-- Where a seek leads.
abbrev pub seek_target : (f : File) (offset whence : ℕ) → Option ℕ
seek_target f offset whence =
    if whence == 0
    then some offset
    else if whence == 1
    then some ((f.current_offset + offset) % 2 ^ 32)
    else if whence == 2
    then some ((f.file_size + offset) % 2 ^ 32)
    else none

abbrev pub seek_to : (fd : ℕ) → Option ℕ → ZeroCopy → ℕ × ZeroCopy
seek_to fd none s = (failed, s)
seek_to fd (some offset) s =
    if ltb (s.files fd).file_size offset
    then (failed, s)
    else (0, set_file fd (record (s.files fd) { current_offset = offset }) s)

-- `zero_copy_seek`, for an offset of 32 bits.
unfoldable pub seek : Env → (fd offset whence : ℕ) → ZeroCopy → ℕ × ZeroCopy
seek e fd offset whence s =
    if e.allowed && good_fd s fd
    then seek_to fd (seek_target (s.files fd) offset whence) s
    else (failed, s)
