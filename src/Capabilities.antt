-- ===== src/Capabilities.antt =====
-- The capability registry of src/misc/capabilities.c: objects are registered with an epoch, tokens are
-- minted for the current epoch under a keyed tag, and revoking an object moves its epoch on.
-- A pointer is a number, 0 for NULL; the build is the i386 one (32-bit pointers).
pub mod Registry
pub mod Mint
pub mod Revoke
pub mod Lifetime
use eyn_os.Base.{
  ℕ, ◌+◌, ◌*◌, ◌/◌, ◌%◌, ◌^◌, Bool, true, false, not, ◌&&◌, ◌||◌, Option, none, some, bit_and,
  bit_or, bit_xor, ◌==◌, if◌then◌else◌, update,
}
use eyn_os.Base.Loop.{find_from}

abbrev pub registry_max : ℕ
registry_max = 64

abbrev pub obj_none : ℕ
obj_none = 0

-- `cap_entry_t`.
pub record Entry : Type 0 where
  pub obj : ℕ
  pub type : ℕ
  pub epoch : ℕ
  pub flags : ℕ

-- `g_cap_registry` and `g_cap_secret`.
pub record Caps : Type 0 where
  pub registry : ℕ → Entry
  pub s0 : ℕ
  pub s1 : ℕ

-- `cap_t`.
pub record Cap : Type 0 where
  pub obj : ℕ
  pub type : ℕ
  pub rights : ℕ
  pub epoch : ℕ
  pub tag_lo : ℕ
  pub tag_hi : ℕ

unfoldable pub fold_ptr : ℕ → ℕ
fold_ptr value = value % 2 ^ 32

unfoldable pub ptr_to_obj32 : ℕ → Option ℕ
ptr_to_obj32 obj =
    if obj == 0 then none else if (obj % 2 ^ 32) == obj then some (obj % 2 ^ 32) else none

unfoldable pub mix64 : ℕ → ℕ
mix64 x =
    let x1 = bit_xor x (x / 2 ^ 33) in
    let x2 = (x1 * 0xff51_afd7_ed55_8ccd) % 2 ^ 64 in
    let x3 = bit_xor x2 (x2 / 2 ^ 33) in
    let x4 = (x3 * 0xc4ce_b9fe_1a85_ec53) % 2 ^ 64 in bit_xor x4 (x4 / 2 ^ 33)

unfoldable pub make_tag : Caps → (obj32 type rights epoch : ℕ) → ℕ
make_tag s obj32 type rights epoch =
    let x1 = bit_or obj32 (type * 2 ^ 32) in
    let x2 = bit_xor x1 (rights * 2 ^ 16) in
    let x3 = bit_xor x2 (epoch * 2 ^ 48 % 2 ^ 64) in
    let x4 = bit_xor x3 (bit_or s.s0 (s.s1 * 2 ^ 32)) in mix64 x4

abbrev pub matches : Caps → (obj type i : ℕ) → Bool
matches s obj type i = ((s.registry i).obj == obj) && ((s.registry i).type == type)

-- The index of the entry, for the pointer to it.
unfoldable pub find_entry : Caps → (obj type : ℕ) → Option ℕ
find_entry s obj type = find_from registry_max 0 (matches s obj type)

abbrev pub blank_entry : Entry
blank_entry = record { obj = 0; type = 0; epoch = 0; flags = 0 }

-- `tsc_lo` and `tsc_hi` are what `rdtsc` reads; the other two are the addresses of the statics.
unfoldable pub init : (tsc_lo tsc_hi registry_addr secret_addr : ℕ) → Caps
init tsc_lo tsc_hi registry_addr secret_addr = record {
  registry = λ i. blank_entry;
  s0 = bit_xor tsc_lo (fold_ptr registry_addr);
  s1 = bit_xor (bit_xor tsc_hi (fold_ptr secret_addr)) 0x9e37_79b9;
}

abbrev pub new_entry : ℕ → ℕ → Entry
new_entry obj type = record { obj = obj; type = type; epoch = 1; flags = 0 }

abbrev pub put_entry : Caps → ℕ → Entry → Caps
put_entry s i e = record s { registry = update s.registry i e }

abbrev pub add_entry : Caps → (obj type : ℕ) → Option ℕ → Bool × Caps
add_entry s obj type none = (false, s)
add_entry s obj type (some i) = (true, put_entry s i (new_entry obj type))

abbrev pub keep_or_add : Caps → (obj type : ℕ) → Option ℕ → Bool × Caps
keep_or_add s obj type (some i) = (true, s)
keep_or_add s obj type none =
    add_entry s obj type (find_from registry_max 0 (λ i. (s.registry i).obj == 0))

-- The result is true for 0 and false for -1.
unfoldable pub register : (obj type : ℕ) → Caps → Bool × Caps
register obj type s =
    if (obj == 0) || (type == obj_none) then (false, s) else elim (ptr_to_obj32 obj) [
      | none ↦ (false, s)
      | some obj32 ↦ keep_or_add s obj type (find_entry s obj type)
    ]

abbrev pub bump_epoch : Entry → Entry
bump_epoch e = record e { epoch = (e.epoch + 1) % 2 ^ 32 }

abbrev pub revoke_at : Caps → Option ℕ → Bool × Caps
revoke_at s none = (false, s)
revoke_at s (some i) = (true, put_entry s i (bump_epoch (s.registry i)))

unfoldable pub revoke : (obj type : ℕ) → Caps → Bool × Caps
revoke obj type s =
    if (obj == 0) || (type == obj_none) then (false, s) else revoke_at s (find_entry s obj type)

-- The token for the entry at `i`.
abbrev pub token : Caps → (obj32 type rights i : ℕ) → Cap
token s obj32 type rights i =
    let epoch = (s.registry i).epoch in
    let tag = make_tag s obj32 type rights epoch in
    record {
      obj = obj32;
      type = type;
      rights = rights;
      epoch = epoch;
      tag_lo = tag % 2 ^ 32;
      tag_hi = tag / 2 ^ 32 % 2 ^ 32;
    }

abbrev pub mint_at : Caps → (obj32 type rights : ℕ) → Option ℕ → Option Cap
mint_at s obj32 type rights none = none
mint_at s obj32 type rights (some i) = some (token s obj32 type rights i)

abbrev pub mint_registered : (obj32 obj type rights : ℕ) → Bool × Caps → Option Cap × Caps
mint_registered obj32 obj type rights (false, s) = (none, s)
mint_registered obj32 obj type rights (true, s) =
    (mint_at s obj32 type rights (find_entry s obj type), s)

-- What is written through `out`, which is not NULL, or none for -1.
unfoldable pub mint : (obj type rights : ℕ) → Caps → Option Cap × Caps
mint obj type rights s =
    if (obj == 0) || (type == obj_none) then (none, s) else elim (ptr_to_obj32 obj) [
      | none ↦ (none, s)
      | some obj32 ↦ mint_registered obj32 obj type rights (register obj type s)
    ]

-- The tests behind the lookup of the entry.
abbrev pub validate_at : Caps → Cap → (obj32 type : ℕ) → Option ℕ → Bool
validate_at s c obj32 type none = false
validate_at s c obj32 type (some i) =
    if not ((s.registry i).epoch == c.epoch)
    then false
    else let expected = make_tag s obj32 type c.rights c.epoch in
      (c.tag_lo == expected % 2 ^ 32) && (c.tag_hi == expected / 2 ^ 32 % 2 ^ 32)

unfoldable pub validate : Caps → Cap → (obj type required_rights : ℕ) → Bool
validate s c obj type required =
    if (obj == 0) || (type == obj_none) then false else elim (ptr_to_obj32 obj) [
      | none ↦ false
      | some obj32 ↦
          if not (c.obj == obj32)
          then false
          else if not (c.type == type)
          then false
          else if not (bit_and c.rights required == required)
          then false
          else validate_at s c obj32 type (find_entry s obj type)
    ]
