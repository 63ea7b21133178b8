-- ===== src/FsTxn.antt =====
-- The filesystem transaction log of src/fs/fs_txn.c: for each drive a nesting depth and up to 64
-- records of what was touched.
pub mod Log
pub mod Refines
use eyn_os.Base.{ℕ, ◌+◌, ◌-◌, ◌%◌, ◌^◌, Bool, true, false, not, leb, ◌==◌, if◌then◌else◌, update}

abbrev pub drive_max : ℕ
drive_max = 4

abbrev pub entry_max : ℕ
entry_max = 64

-- `fs_txn_entry_t`.
pub record Entry : Type 0 where
  pub tag : ℕ
  pub len : ℕ

-- `fs_txn_state_t`.
pub record Txn : Type 0 where
  pub depth : ℕ
  pub count : ℕ
  pub entries : ℕ → Entry

abbrev pub blank : ℕ → Entry
blank i = record { tag = 0; len = 0 }

-- `g_fs_txn`.
abbrev pub Drives : Type 0
Drives = ℕ → Txn

unfoldable pub begin : ℕ → Drives → Drives
begin drive g =
    if leb drive_max drive
    then g
    else update g drive (record (g drive) { depth = ((g drive).depth + 1) % 2 ^ 32 })

abbrev pub close : Txn → Txn
close t =
    if t.depth - 1 == 0
    then record { depth = 0; count = 0; entries = blank }
    else record t { depth = t.depth - 1 }

unfoldable pub commit : ℕ → Drives → Drives
commit drive g =
    if leb drive_max drive
    then g
    else if (g drive).depth == 0
    then g
    else update g drive (close (g drive))

unfoldable pub abort : ℕ → Drives → Drives
abort drive g =
    if leb drive_max drive
    then g
    else update g drive (record { depth = 0; count = 0; entries = blank })

abbrev pub note : Entry → Txn → Txn
note e t = record t { count = t.count + 1; entries = update t.entries t.count e }

unfoldable pub touch : ℕ → (tag len : ℕ) → Drives → Drives
touch drive tag len g =
    if leb drive_max drive
    then g
    else if (g drive).depth == 0
    then g
    else if leb entry_max (g drive).count
    then g
    else update g drive (note (record { tag = tag; len = len }) (g drive))

unfoldable pub is_active : ℕ → Drives → Bool
is_active drive g = if leb drive_max drive then false else not ((g drive).depth == 0)

unfoldable pub get_count : ℕ → Drives → ℕ
get_count drive g = if leb drive_max drive then 0 else (g drive).count
