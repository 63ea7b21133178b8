-- ===== src/Tests/CapabilityTests.antt =====
-- The capability registry of src/misc/capabilities.c on a fresh table.
use eyn_os.Base.{◌%◌, ◌/◌, ◌^◌, ◌≡◌, refl, true, false, some, List, [], ◌∷◌, arith}
use eyn_os.Base.Loop.{find_from}
use eyn_os.Capabilities.{
  Cap, Caps, fold_ptr, ptr_to_obj32, init, register, find_entry, mint, mix64, make_tag, validate,
}
use eyn_os.Capabilities.Revoke.{Op, registers, revokes, mints, run}
use eyn_os.Capabilities.Lifetime.{validate-unrevoked, validate-revoked}

abbrev caps : Caps
unfolding init fold_ptr
caps = init 7 9 100 200

-- A token of type 2 with rights 3 for the object at 4096.
abbrev handle : Cap
unfolding make_tag mix64 fold_ptr
handle =
    let tag = make_tag caps 4096 2 3 1 in
    record {
      obj = 4096;
      type = 2;
      rights = 3;
      epoch = 1;
      tag_lo = tag % 2 ^ 32;
      tag_hi = tag / 2 ^ 32 % 2 ^ 32;
    }

minted : (mint 4096 2 3 caps).0 ≡ some handle
unfolding mint ptr_to_obj32 register find_entry find_from make_tag mix64 fold_ptr init
minted = refl

-- Another object comes and goes.
abbrev others : List Op
others = registers 8192 5 ∷ revokes 8192 5 ∷ mints 4096 2 1 ∷ []

validate-unrevoked_example : validate (run others (mint 4096 2 3 caps).1) handle 4096 2 2 ≡ true
validate-unrevoked_example = validate-unrevoked 4096 2 3 caps handle others minted 2 refl refl

-- The object is revoked, and minted for again.
abbrev reissued : List Op
reissued = revokes 4096 2 ∷ mints 4096 2 3 ∷ []

validate-revoked_example : validate (run reissued (mint 4096 2 3 caps).1) handle 4096 2 2 ≡ false
validate-revoked_example =
    validate-revoked 4096 2 3 caps handle reissued minted 2 (λ e. ground arith) (omega arith)
