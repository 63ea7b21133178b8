-- ===== src/UserAccess.antt =====
-- User pointer checks of src/mm/user_access.c, over the two-level page tables that
-- `vmm_walk_page_tables` of src/mm/vmm.c walks. Addresses are 32-bit numbers.
pub mod Pages
pub mod Check
use eyn_os.Base.{
  ℕ, zero, suc, ◌+◌, ◌*◌, ◌/◌, ◌%◌, ◌-◌, ◌^◌, Bool, true, false, not, ◌&&◌, ◌||◌, Option, none,
  some, leb, ltb, bit_and, ◌==◌, if◌then◌else◌,
}
use eyn_os.Base.Bits.{test_bit}

abbrev pub page_size : ℕ
page_size = 4096

abbrev pub user_code_base : ℕ
user_code_base = 0x0040_0000

abbrev pub user_stack_top : ℕ
user_stack_top = 0xC000_0000

abbrev pub kernel_base : ℕ
kernel_base = 0xC000_0000

-- The bits PTE_PRESENT, PTE_RW and PTE_USER.
abbrev pub bit_present : ℕ
bit_present = 0

abbrev pub bit_rw : ℕ
bit_rw = 1

abbrev pub bit_user : ℕ
bit_user = 2

-- The address space in force: whether it has a page directory, the directory, and the page tables by
-- their physical address.
pub record AddressSpace : Type 0 where
  pub has_directory : Bool
  pub directory : ℕ → ℕ
  pub tables : ℕ → ℕ → ℕ

-- The entry of the page table that a directory entry names. The source reads the table through one of
-- several virtual addresses of it, and the model reads the table itself.
abbrev pub table_entry : AddressSpace → (pde pti : ℕ) → ℕ
table_entry space pde pti = space.tables (bit_and pde 0xFFFF_F000) pti

-- `vmm_walk_page_tables(as, va, 0)`, which creates no table: the entry that the returned pointer points
-- at. The address space itself is there, as user_page_ok passes the kernel's when no other is in force.
unfoldable pub walk_page_tables : AddressSpace → ℕ → Option ℕ
walk_page_tables space va =
    let pdi = va / 2 ^ 22 % 1024 in
    let pti = va / 2 ^ 12 % 1024 in
    let pde = space.directory pdi in
    if not space.has_directory
    then none
    else if not (test_bit pde bit_present)
    then none
    else some (table_entry space pde pti)

abbrev pub flags_ok : Option ℕ → Bool → Bool
flags_ok none write = false
flags_ok (some flags) write =
    if not (test_bit flags bit_present)
    then false
    else if not (test_bit flags bit_user)
    then false
    else if write && not (test_bit flags bit_rw)
    then false
    else true

unfoldable pub user_page_ok : AddressSpace → ℕ → Bool → Bool
user_page_ok space va write =
    if leb kernel_base va
    then false
    else if ltb va user_code_base || leb user_stack_top va
    then false
    else flags_ok (walk_page_tables space va) write

-- `va & PAGE_MASK`.
abbrev pub page_of : ℕ → ℕ
page_of va = va / page_size * page_size

-- The rest of a round, where `next` goes on with the page behind.
abbrev pub after_page : (is_ok is_last : Bool) → ℕ → (ℕ → Option Bool) → Option Bool
after_page false is_last page next = some false
after_page true true page next = some true
after_page true false page next = next ((page + page_size) % 2 ^ 32)

-- The loop over the pages, on fuel.
unfoldable pub pages_ok : ℕ → AddressSpace → (page end_page : ℕ) → Bool → Option Bool
unfolding user_page_ok
pages_ok zero space page end_page write = none
pages_ok (suc f) space page end_page write =
    after_page (user_page_ok space page write) (page == end_page) page
      (λ p. pages_ok f space p end_page write)

abbrev pub add32 : ℕ → ℕ → ℕ
add32 a b = (a + b) % 2 ^ 32

-- The tests of the range from `start` to `end`, and the pages that it touches.
abbrev pub range_ok : ℕ → AddressSpace → (start end : ℕ) → Bool → Option Bool
range_ok f space start end write =
    if ltb end start
    then some false
    else if ltb start user_code_base || ltb user_stack_top end
    then some false
    else pages_ok f space (page_of start) (page_of (end - 1)) write

unfoldable pub user_access_ok : ℕ → AddressSpace → (user_ptr len : ℕ) → Bool → Option Bool
unfolding pages_ok
user_access_ok f space user_ptr len write =
    if len == 0
    then some true
    else if user_ptr == 0
    then some false
    else range_ok f space user_ptr (add32 user_ptr len) write
