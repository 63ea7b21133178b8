-- ===== src/Tests/UserAccessTests.antt =====
-- A range over two pages for src/mm/user_access.c.
use eyn_os.Base.{◌≡◌, Bool, true, some, arith}
use eyn_os.UserAccess.{AddressSpace, user_access_ok}
use eyn_os.UserAccess.Check.{AllBytes, page_fuel, user_access_ok_iff}

-- Every page is present, writable and the user's.
abbrev mapped : AddressSpace
mapped = record { has_directory = true; directory = λ i. 0x1007; tables = λ t i. 0x5007 }

user_access_ok_iff_example :
    (r : Bool) × (user_access_ok page_fuel mapped 0x0040_0FFE 4 true ≡ some r)
    × (r ≡ true → AllBytes mapped true 0x0040_0FFE 4)
    × (AllBytes mapped true 0x0040_0FFE 4 → r ≡ true)
user_access_ok_iff_example =
    user_access_ok_iff page_fuel mapped true 0x0040_0FFE 4 (omega arith) (omega arith) (omega arith)
      (omega arith)
