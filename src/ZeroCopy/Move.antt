-- ===== src/ZeroCopy/Move.antt =====
-- Copies from one zero-copy file of src/utilities/zero_copy.c to another, and truncation.
use eyn_os.Base.{ℕ, ◌+◌, ◌-◌, ◌%◌, ◌^◌, true, ◌&&◌, ltb, ◌==◌, if◌then◌else◌, min}
use eyn_os.ZeroCopy.{
  File, ZeroCopy, Env, failed, copy_to, zeros, good_fd, set_file, count_operation, writable,
  free_buffer,
}

-- The bytes left in a file, in 32 bits.
abbrev pub available : File → ℕ
available f = (f.file_size + 2 ^ 32 - f.current_offset) % 2 ^ 32

-- The bytes to copy.
abbrev pub common : (fd_in fd_out count : ℕ) → ZeroCopy → ℕ
common fd_in fd_out count s =
    min (min count (available (s.files fd_in))) (available (s.files fd_out))

-- `n` bytes go from the one file's place to the other's.
abbrev pub copy_between : (fd_in fd_out n : ℕ) → ZeroCopy → ZeroCopy
copy_between fd_in fd_out n s =
    let i = s.files fd_in in
    let o = s.files fd_out in
    set_file fd_out
      (record o {
        bytes = copy_to o.bytes o.current_offset (λ k. i.bytes (i.current_offset + k)) n;
      })
      s

abbrev pub advance : (fd n : ℕ) → ZeroCopy → ZeroCopy
advance fd n s =
    set_file fd
      (record (s.files fd) { current_offset = ((s.files fd).current_offset + n) % 2 ^ 32 }) s

abbrev pub mark_dirty : ℕ → ZeroCopy → ZeroCopy
mark_dirty fd s = set_file fd (record (s.files fd) { dirty = true }) s

-- `zero_copy_splice`. Both descriptors may be the same.
unfoldable pub splice : Env → (fd_in fd_out count : ℕ) → ZeroCopy → ℕ × ZeroCopy
splice e fd_in fd_out count s =
    if e.allowed && good_fd s fd_in && good_fd s fd_out
    then (let n = common fd_in fd_out count s in
        (
          n,
          count_operation (
              mark_dirty fd_out
                (advance fd_out n (advance fd_in n (copy_between fd_in fd_out n s)))),
        ))
    else (failed, s)

-- `zero_copy_tee`.
unfoldable pub tee : Env → (fd_in fd_out count : ℕ) → ZeroCopy → ℕ × ZeroCopy
tee e fd_in fd_out count s =
    if e.allowed && good_fd s fd_in && good_fd s fd_out
    then (let n = common fd_in fd_out count s in
        (n, count_operation (mark_dirty fd_out (advance fd_out n (copy_between fd_in fd_out n s)))))
    else (failed, s)

-- A file without bytes.
abbrev pub shrunk : File → File
shrunk f = record f {
  mapped_address = 0;
  file_size = 0;
  current_offset = 0;
  entry = record f.entry { size = 0 };
  dirty = true;
}

-- A file with a new buffer of `n` bytes.
abbrev pub resized : Env → (n : ℕ) → File → File
resized e n f =
    let to_copy = min n f.file_size in
    record f {
      mapped_address = e.new_buf;
      file_size = n;
      current_offset = if ltb n f.current_offset then n else f.current_offset;
      entry = record f.entry { size = n };
      dirty = true;
      bytes =
          if f.mapped_address == 0
          then copy_to e.fresh 0 zeros n
          else copy_to (copy_to e.fresh 0 f.bytes to_copy) to_copy zeros (n - to_copy);
    }

abbrev pub truncate_to : Env → (fd n : ℕ) → ZeroCopy → ℕ × ZeroCopy
truncate_to e fd n s =
    let f = s.files fd in
    if n == f.file_size
    then (0, s)
    else if n == 0
    then (0, set_file fd (shrunk f) (free_buffer f.mapped_address s))
    else if e.new_buf == 0
    then (failed, s)
    else (0, set_file fd (resized e n f) (free_buffer f.mapped_address s))

-- `zero_copy_truncate`, for a length that a size_t of 32 bits holds.
unfoldable pub truncate : Env → (fd length : ℕ) → ZeroCopy → ℕ × ZeroCopy
truncate e fd length s =
    if e.allowed && good_fd s fd && writable (s.files fd).flags
    then truncate_to e fd length s
    else (failed, s)

-- `reset_zero_copy_stats`.
unfoldable pub reset_stats : ZeroCopy → ZeroCopy
reset_stats s = record s {
  operations = 0;
  files = λ fd. if ltb fd s.fd_count then record (s.files fd) { access_count = 0 } else s.files fd;
}
