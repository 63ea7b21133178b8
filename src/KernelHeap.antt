-- ===== src/KernelHeap.antt =====
-- The kernel heap of src/utilities/util.c: blocks with a header each, linked by offsets from the heap's
-- start, found by best fit, split on allocation and merged on release. Addresses are 32-bit numbers.
-- This is the default build, with CONFIG_RUST_ALLOCATOR 0 in the Makefile.
-- Headers are kept by their offset. What the users write into their blocks is not kept, and neither
-- are the messages and the charge to the running command.
pub mod Tiles
pub mod Find
pub mod Place
pub mod Take
pub mod Malloc
pub mod Absorb
pub mod Merge
pub mod Spread
pub mod Mark
pub mod Release
pub mod RoundTrip
pub mod Setup
pub mod Sizes
pub mod Small
pub mod Start
pub mod Front
pub mod Foreign
use eyn_os.Base.{
  ℕ, zero, suc, ◌+◌, ◌*◌, ◌/◌, ◌%◌, ◌-◌, ◌^◌, Bool, true, false, not, ◌&&◌, ◌||◌, Option, none,
  some, leb, ltb, ◌==◌, if◌then◌else◌, update,
}

abbrev pub header_size : ℕ
header_size = 16

abbrev pub min_block_size : ℕ
min_block_size = 16

abbrev pub heap_size_min : ℕ
heap_size_min = 0x4_0000

abbrev pub no_block : ℕ
no_block = 0xFFFF_FFFF

abbrev pub magic_number : ℕ
magic_number = 0xDEAD_BEEF

-- `block_header_t`.
pub record Block : Type 0 where
  pub size : ℕ
  pub used : Bool
  pub next : ℕ
  pub magic : ℕ

-- The static variables of the heap, with the headers by offset.
pub record Heap : Type 0 where
  pub heap_start : ℕ
  pub heap_size : ℕ
  pub first_block : ℕ
  pub is_initialized : Bool
  pub memory_errors : ℕ
  pub allocation_count : ℕ
  pub free_count : ℕ
  pub block : ℕ → Block

abbrev pub add32 : ℕ → ℕ → ℕ
add32 a b = (a + b) % 2 ^ 32

abbrev pub set_block : ℕ → Block → Heap → Heap
set_block off b h = record h { block = update h.block off b }

-- An error was counted.
abbrev pub count_error : Heap → Heap
count_error h = record h { memory_errors = add32 h.memory_errors 1 }

-- The tests of the heap itself, in the order of the source.
abbrev pub base_ok : Heap → Bool
base_ok h =
    if (h.heap_start == 0) || ltb h.heap_start 0x10_0000 || ltb h.heap_size heap_size_min
    then false
    else if leb (add32 h.heap_start h.heap_size) h.heap_start
    then false
    else true

-- The tests of the block at `off`, to which the pointer `heap_start + off` is passed.
abbrev pub place_ok : Heap → ℕ → Bool
place_ok h off =
    let addr = add32 h.heap_start off in
    if ltb addr h.heap_start || ltb (add32 h.heap_start h.heap_size) (add32 addr header_size)
    then false
    else if leb h.heap_size off
        || ltb h.heap_size (add32 off header_size)
        || ltb h.heap_size (add32 off (h.block off).size)
    then false
    else true

abbrev pub size_ok : Heap → ℕ → Bool
size_ok h off =
    let size = (h.block off).size in
    if ltb size header_size || ltb h.heap_size size || (size == 0) then false else true

unfoldable pub validate_block : Heap → ℕ → Bool
validate_block h off = base_ok h && place_ok h off && size_ok h off

-- The best fit so far: its offset and its size.
abbrev pub better : Block → (size off best_fit best_size : ℕ) → ℕ × ℕ
better b size off best_fit best_size =
    if not b.used && leb size b.size && ltb b.size best_size
    then (off, b.size)
    else (best_fit, best_size)

-- What the loop makes of a block that is valid or not; `next` goes on.
abbrev pub look_at : Bool → Heap → (ℕ × ℕ) → (ℕ × ℕ → ℕ × Heap) → ℕ × Heap
look_at false h best next = (no_block, count_error h)
look_at true h best next = next best

-- The loop over at most `left` more blocks.
unfoldable pub find_loop : (left : ℕ) → Heap → (size current : ℕ) → (ℕ × ℕ) → ℕ × Heap
find_loop zero h size current best = (best.0, h)
find_loop (suc left) h size current best =
    if current == no_block
    then (best.0, h)
    else look_at (validate_block h current) h (better (h.block current) size current best.0 best.1)
        (λ b. find_loop left h size (h.block current).next b)

unfoldable pub find_free_block : ℕ → Heap → ℕ × Heap
find_free_block size h = find_loop 100 h size h.first_block (no_block, 0xFFFF_FFFF)

unfoldable pub split_block : (off needed_size : ℕ) → Heap → Heap
split_block off needed_size h =
    let b = h.block off in
    if ltb b.size (add32 (add32 needed_size header_size) min_block_size)
    then h
    else let new_off = add32 off needed_size in
      let h1 =
        set_block new_off
          (record {
            size = (b.size + 2 ^ 32 - needed_size) % 2 ^ 32;
            used = false;
            next = b.next;
            magic = magic_number;
          })
          h in
      set_block off (record (h1.block off) { size = needed_size; next = new_off }) h1

-- `(nbytes + BLOCK_HEADER_SIZE + 3u) & ~3u`.
abbrev pub total_size : ℕ → ℕ
total_size nbytes = add32 (add32 nbytes header_size) 3 / 4 * 4

abbrev pub max_allocation : Heap → ℕ
max_allocation h = h.heap_size * 9 % 2 ^ 32 / 10

-- The block is taken: its header is marked, and what is left over is split off.
abbrev pub take_block : (off size : ℕ) → Heap → Heap
take_block off size h =
    let marked = set_block off (record (h.block off) { used = true; magic = magic_number }) h in
    let t = split_block off size marked in
    record t { allocation_count = add32 t.allocation_count 1 }

-- The pointer that is returned, 0 for NULL.
abbrev pub allocated : (size : ℕ) → ℕ × Heap → ℕ × Heap
allocated size (off, h) =
    if off == no_block
    then (0, h)
    else (add32 (add32 h.heap_start off) header_size, take_block off size h)

-- `heap_malloc`, where the lazy initialisation has been tried.
unfoldable pub heap_malloc : ℕ → Heap → ℕ × Heap
heap_malloc nbytes h =
    if not h.is_initialized
    then (0, h)
    else if nbytes == 0
    then (0, h)
    else if ltb (max_allocation h) nbytes
    then (0, h)
    else if h.heap_start == 0
    then (0, h)
    else allocated (total_size nbytes) (find_free_block (total_size nbytes) h)

-- How the inner loop of `merge_free_blocks` ends: the function returns, or the outer loop goes on.
pub data Absorbed : Type 0 where
  stops : Heap → Absorbed
  goes_on : Heap → Absorbed
  no_fuel : Absorbed

-- Both blocks are free: the next one becomes part of this one.
abbrev pub join_next : ℕ → Heap → Heap
join_next current h =
    let b = h.block current in
    let n = h.block b.next in
    set_block current (record b { size = add32 b.size n.size; next = n.next }) h

abbrev pub join_or_break : Bool → (current : ℕ) → Heap → (Heap → Absorbed) → Absorbed
join_or_break false current h next = goes_on h
join_or_break true current h next = next (join_next current h)

abbrev pub join_valid : Bool → (current : ℕ) → Heap → (Heap → Absorbed) → Absorbed
join_valid false current h next = stops (count_error h)
join_valid true current h next =
    join_or_break (not (h.block current).used && not (h.block (h.block current).next).used) current
      h next

unfoldable pub absorb_loop : ℕ → ℕ → Heap → Absorbed
absorb_loop zero current h = no_fuel
absorb_loop (suc f) current h =
    if (h.block current).next == no_block
    then goes_on h
    else join_valid (validate_block h (h.block current).next) current h (absorb_loop f current)

abbrev pub after_absorb : (current : ℕ) → Absorbed → (Heap → ℕ → Option Heap) → Option Heap
after_absorb current (stops h) next = some h
after_absorb current (goes_on h) next = next h (h.block current).next
after_absorb current no_fuel next = none

abbrev pub merge_at : Bool → (f current : ℕ) → Heap → (Heap → ℕ → Option Heap) → Option Heap
merge_at false f current h next = some (count_error h)
merge_at true f current h next = after_absorb current (absorb_loop f current h) next

unfoldable pub merge_loop : ℕ → ℕ → Heap → Option Heap
merge_loop zero current h = none
merge_loop (suc f) current h =
    if current == no_block
    then some h
    else merge_at (validate_block h current) (suc f) current h (λ t k. merge_loop f k t)

abbrev pub counted : Option Heap → Option Heap
counted none = none
counted (some h) = some (record h { free_count = add32 h.free_count 1 })

-- `data_ptr - heap_start - BLOCK_HEADER_SIZE` in 32 bits.
abbrev pub offset_of : ℕ → Heap → ℕ
offset_of ptr h = (ptr + 2 ^ 32 - h.heap_start + 2 ^ 32 - header_size) % 2 ^ 32

abbrev pub release : (f off : ℕ) → Heap → Option Heap
release f off h =
    if not (h.block off).used
    then some (count_error h)
    else let freed = set_block off (record (h.block off) { used = false }) h in
      counted (merge_loop f freed.first_block freed)

-- `heap_free`, with fuel for the loops of the merge.
unfoldable pub heap_free : ℕ → ℕ → Heap → Option Heap
heap_free f ptr h =
    if ptr == 0
    then some h
    else if not h.is_initialized
    then some h
    else if h.heap_start == 0
    then some (count_error h)
    else if leb h.heap_size (offset_of ptr h)
    then some (count_error h)
    else if not (validate_block h (offset_of ptr h))
    then some (count_error h)
    else release f (offset_of ptr h) h
