-- ===== src/Tests/ZeroCopyTests.antt =====
-- Runs of the zero-copy files of src/utilities/zero_copy.c.
use eyn_os.Base.{
  ℕ, ◌+◌, ◌%◌, ◌^◌, ◌<◌, ◌≡◌, ◌≢◌, refl, ap, ◌&&◌, if◌then◌else◌, ◌==◌, true, false, not, List, [],
  ◌∷◌, Option, some, none, arith,
}
use eyn_os.ZeroCopy.{Entry, ZeroCopy, Env, Found, failed, init, open_file, readable, writable}
use eyn_os.ZeroCopy.Io.{read, write, seek}
use eyn_os.ZeroCopy.Move.{splice}
use eyn_os.ZeroCopy.Sound.{Sound}
use eyn_os.ZeroCopy.History.{
  Call, opens, closes, writes, seeks, splices, run_calls, run_calls-init-Sound,
}
use eyn_os.ZeroCopy.ReadBack.{read-seek-write}
use eyn_os.ZeroCopy.Access.{readable-writable}
use eyn_os.ZeroCopy.Buffers.{Buffer}
use eyn_os.ZeroCopy.InPlace.{Disk, Cache, write_in_place}
use eyn_os.ZeroCopy.Links.{InPlace, write_in_place-InPlace}
use eyn_os.ZeroCopy.Full.{open_file-run_calls}

abbrev unused : ZeroCopy
unused = record {
  ready = false;
  files = λ fd. record {
    mapped_address = 0;
    file_size = 0;
    current_offset = 0;
    drive = 0;
    flags = 0;
    block_start = 0;
    block_count = 0;
    access_count = 0;
    dirty = false;
    parent_block = 0;
    entry_index = 0;
    entry = record { is_file = false; size = 0; first_block = 0 };
    bytes = λ i. 0;
  };
  max_files = 16;
  fd_count = 0;
  operations = 0;
  anon_maps = λ i. record { addr = 0; length = 0 };
  anon_count = 0;
  freed = [];
  saved = [];
}

abbrev a_file : Entry
a_file = record { is_file = true; size = 10; first_block = 7 }

-- A call that everything is all_granted to.
abbrev all_granted : Env
all_granted = record {
  allowed = true;
  may_allocate = true;
  new_buf = 0xC050_0000;
  fresh = λ i. 0xCC;
  superblock = true;
  written = true;
  entry_after = a_file;
}

abbrev a_found : Found
a_found = record {
  entry = a_file;
  parent_block = 3;
  entry_index = 1;
  bytes_read = 10;
  bytes = λ i. 65 + i;
}

-- The small table, with two files open.
abbrev started : ZeroCopy
started = init true 0x40_0000 0xC040_0000 0 unused

abbrev two_open : ZeroCopy
two_open =
    run_calls (opens all_granted 0 3 (some a_found) ∷ opens all_granted 0 1 (some a_found) ∷ [])
      started

abbrev letters : ℕ → ℕ
letters i = 97 + i

abbrev calls : List Call
calls =
    opens all_granted 0 3 (some a_found)
    ∷ opens all_granted 0 1 (some a_found)
    ∷ writes all_granted 0 letters 12
    ∷ seeks all_granted 0 4 0
    ∷ splices all_granted 0 1 6
    ∷ closes all_granted 0
    ∷ []

abbrev found_size : Option Found → ℕ
found_size none = 0
found_size (some f) = f.entry.size

run_calls-init-Sound_example : Sound (run_calls calls (init true 0x40_0000 0xC040_0000 0 unused))
run_calls-init-Sound_example =
    run_calls-init-Sound 0x40_0000 0xC040_0000 0 unused calls (omega arith)
      (found_small, (found_small, (omega arith, (tt, ((λ e. omega arith), (tt, tt))))))
  where
    found_small : (f : Found) → some a_found ≡ some f → f.entry.size < 2 ^ 32
    found_small f e = rw⁻¹ (ap found_size e) (omega arith)

opened_two : two_open.fd_count ≡ 2
unfolding init open_file
opened_two = refl

-- A splice from a handle to itself moves its place twice, past the end of the file.
splice_self : ((splice all_granted 0 0 10 two_open).1.files 0).current_offset ≡ 20
unfolding init open_file splice
splice_self = refl

two_open-Sound : Sound two_open
two_open-Sound =
    run_calls-init-Sound 0x40_0000 0xC040_0000 0 unused
      (opens all_granted 0 3 (some a_found) ∷ opens all_granted 0 1 (some a_found) ∷ [])
      (omega arith) (found_small, (found_small, tt))
  where
    found_small : (f : Found) → some a_found ≡ some f → f.entry.size < 2 ^ 32
    found_small f e = rw⁻¹ (ap found_size e) (omega arith)

write-all_granted : (write all_granted 0 letters 12 two_open).0 ≢ failed
unfolding init open_file write
write-all_granted e = absurd (omega (arith, e))

read-seek-write_example :
    ((read all_granted 0
        (λ i. 0)
        12
        (seek all_granted 0
          (two_open.files 0).current_offset
          0
          (write all_granted 0 letters 12 two_open).1).1).0
      ≡ 12)
    × ((i : ℕ)
        → i < 12
        → (read all_granted 0
              (λ j. 0)
              12
              (seek all_granted 0
                (two_open.files 0).current_offset
                0
                (write all_granted 0 letters 12 two_open).1).1).1
            i
          ≡ letters i)
read-seek-write_example =
    read-seek-write all_granted all_granted all_granted 0 letters (λ i. 0) 12 two_open
      two_open-Sound (omega arith) write-all_granted refl refl

readable-writable_example : (readable 1 ≡ writable 1) × (writable 1 ≡ not (1 % 4 == 0))
readable-writable_example = readable-writable 1

-- Both places are taken, and both files closed.
open_file-run_calls_example :
    open_file all_granted 0 1
      (some a_found)
      (run_calls (closes all_granted 0 ∷ closes all_granted 1 ∷ []) two_open)
    ≡ (failed, run_calls (closes all_granted 0 ∷ closes all_granted 1 ∷ []) two_open)
unfolding init open_file
open_file-run_calls_example =
    open_file-run_calls (closes all_granted 0 ∷ closes all_granted 1 ∷ []) two_open all_granted 0 1
      (some a_found) (omega arith)

abbrev a_buffer : Buffer
a_buffer = record { address = 0xC051_0000; size = 16; dirty = false; bytes = λ i. 0 }

-- Block 7 is followed by block 9.
abbrev a_disk : Disk
a_disk b i = if (b == 7) && (i == 0) then 9 else 0

abbrev a_cache : Cache
a_cache = record { reads = λ b. true; writes = λ b. true }

write_in_place-InPlace_example :
    InPlace a_disk 20
      (write_in_place 701 true a_cache a_disk (record a_file { size = 1000 }) letters 20 500)
write_in_place-InPlace_example =
    write_in_place-InPlace 701 true a_cache a_disk (record a_file { size = 1000 }) letters 20 500
      (omega arith)
