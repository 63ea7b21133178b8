-- ===== src/Capabilities/Mint.antt =====
-- `cap_mint` and `cap_validate` of src/misc/capabilities.c agree.
use eyn_os.Base.{ℕ, ◌≡◌, true, ◌||◌, some, inl, inr, bit_and, arith, ◌==◌, Option-cases, Bool-cases}
use eyn_os.Capabilities.{Cap, Caps, obj_none, mint, ptr_to_obj32, register, validate}
use eyn_os.Capabilities.Registry.{register_found}

-- A minted token is valid for its object and type, and for any rights among those it was minted with.
pub validate-mint :
    (obj type rights required : ℕ) (s : Caps) (c : Cap)
    → (mint obj type rights s).0 ≡ some c
    → bit_and rights required ≡ required
    → validate (mint obj type rights s).1 c obj type required ≡ true
unfolding mint validate
validate-mint obj type rights required s c e sub =
    elim (Bool-cases ((obj == 0) || (type == obj_none))) [
      | inl h ↦ absurd (ground arith)
      | inr h ↦ elim (Option-cases (ptr_to_obj32 obj)) [
        | inl n ↦ absurd (ground arith)
        | inr (o, p) ↦ elim (Bool-cases (register obj type s).0) [
          | inl r ↦ let (i, f) = register_found obj type s r in ground arith
          | inr r ↦ absurd (ground arith)
        ]
      ]
    ]
