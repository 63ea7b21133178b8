-- ===== src/ZeroCopy/Maps.antt =====
-- Mappings of the zero-copy files of src/utilities/zero_copy.c, and anonymous ones.
use eyn_os.Base.{
  ℕ, zero, suc, ◌+◌, ◌-◌, ◌%◌, ◌^◌, Bool, not, ◌&&◌, Option, none, some, List, ◌∷◌, leb, ltb, ◌==◌,
  if◌then◌else◌, update,
}
use eyn_os.ZeroCopy.{
  File, AnonMap, Saved, ZeroCopy, Env, failed, max_anon_maps, good_fd, set_file, writeback, log,
  status,
}

-- The mapping of an open file.
abbrev pub map_file : (fd length offset : ℕ) → ZeroCopy → ℕ × ZeroCopy
map_file fd length offset s =
    let f = s.files fd in
    if ltb f.file_size ((offset + length) % 2 ^ 32)
    then (0, s)
    else ((f.mapped_address + offset) % 2 ^ 32, s)

-- An anonymous mapping, which is noted if there is room.
abbrev pub map_anon : Env → (length : ℕ) → ZeroCopy → ℕ × ZeroCopy
map_anon e length s =
    if e.new_buf == 0
    then (0, s)
    else if ltb s.anon_count max_anon_maps
    then (
      e.new_buf,
      record s {
        anon_maps = update s.anon_maps s.anon_count (record { addr = e.new_buf; length = length });
        anon_count = s.anon_count + 1;
      },
    )
    else (e.new_buf, s)

-- `zero_copy_mmap`: a pointer, 0 for NULL. The address that is asked for and the flags are not read.
unfoldable pub mmap : Env → (addr length flags fd offset : ℕ) → ZeroCopy → ℕ × ZeroCopy
mmap e addr length flags fd offset s =
    if e.allowed
    then (if good_fd s fd then map_file fd length offset s else map_anon e length s)
    else (0, s)

-- The first anonymous mapping at `addr`, from the `i`-th on.
unfoldable pub find_anon : (left i addr : ℕ) → (ℕ → AnonMap) → Option ℕ
find_anon zero i addr maps = none
find_anon (suc left) i addr maps =
    let later = find_anon left (i + 1) addr maps in if (maps i).addr == addr then some i else later

-- The table without its `i`-th entry.
abbrev pub compacted : (i count : ℕ) → (ℕ → AnonMap) → ℕ → AnonMap
compacted i count maps j = if leb i j && ltb j (count - 1) then maps (j + 1) else maps j

-- Whether an address lies in the buffer of a file.
abbrev pub contains : File → ℕ → Bool
contains f addr =
    not (f.mapped_address == 0)
    && leb f.mapped_address addr
    && ltb addr ((f.mapped_address + f.file_size) % 2 ^ 32)

-- The first of the files, from `fd` on, whose buffer holds an address.
unfoldable pub find_mapped : (left fd addr : ℕ) → (ℕ → File) → Option ℕ
find_mapped zero fd addr files = none
find_mapped (suc left) fd addr files =
    let later = find_mapped left (fd + 1) addr files in
    if contains (files fd) addr then some fd else later

abbrev pub unmap_file : Option ℕ → ZeroCopy → ℕ × ZeroCopy
unmap_file (some fd) s = (0, s)
unmap_file none s = (failed, s)

abbrev pub unmap : (addr : ℕ) → Option ℕ → ZeroCopy → ℕ × ZeroCopy
unmap addr (some i) s = (
  0,
  record s {
    anon_maps = compacted i s.anon_count s.anon_maps;
    anon_count = s.anon_count - 1;
    freed = addr ∷ s.freed;
  },
)
unmap addr none s = unmap_file (find_mapped s.fd_count 0 addr s.files) s

-- `zero_copy_munmap`; the length is not read.
unfoldable pub munmap : (addr length : ℕ) → ZeroCopy → ℕ × ZeroCopy
munmap addr length s =
    if addr == 0 then (failed, s) else unmap addr (find_anon s.anon_count 0 addr s.anon_maps) s

abbrev pub sync_written : ℕ → Bool × (File × List Saved) → ZeroCopy → ℕ × ZeroCopy
sync_written fd (ok, (f, new)) s = (status ok, log new (set_file fd f s))

abbrev pub sync : Env → Option ℕ → ZeroCopy → ℕ × ZeroCopy
sync e none s = (failed, s)
sync e (some fd) s =
    if (s.files fd).dirty then sync_written fd (writeback e (s.files fd)) s else (0, s)

-- `zero_copy_msync`; the length and the flags are not read.
unfoldable pub msync : Env → (addr length flags : ℕ) → ZeroCopy → ℕ × ZeroCopy
msync e addr length flags s =
    if e.allowed then sync e (find_mapped s.fd_count 0 addr s.files) s else (failed, s)
