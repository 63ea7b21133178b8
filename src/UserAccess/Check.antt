-- ===== src/UserAccess/Check.antt =====
-- `user_access_ok` of src/mm/user_access.c against the bytes that it lets through.
use eyn_os.Base.{
  ℕ, ◌+◌, ◌-◌, ◌^◌, ◌<◌, ◌≤◌, ◌≡◌, ◌≢◌, ◌∙◌, refl, ap, Bool, true, false, some, leb, ltb, ◌==◌,
  arith, inl, inr, Bool-cases,
}
use eyn_os.UserAccess.{
  AddressSpace, page_of, add32, user_code_base, user_stack_top, range_ok, user_access_ok,
}
use eyn_os.UserAccess.Pages.{
  UserByte, AllPages, user_page_ok-UserByte, UserByte-user_page_ok, pages_ok_lem,
}

-- Every byte of a range is one that a program may use.
abbrev pub AllBytes : AddressSpace → Bool → (user_ptr len : ℕ) → Type 0
AllBytes space write user_ptr len =
    (va : ℕ) → user_ptr ≤ va → va < user_ptr + len → UserByte space write va

-- As many pages as there are in 32 bits.
abbrev pub page_fuel : ℕ
page_fuel = 0x10_0000

module _ (f : ℕ) (hf : page_fuel ≤ f) (space : AddressSpace) (write : Bool) (user_ptr len : ℕ)
    (hl : len ≢ 0) (hp : user_code_base ≤ user_ptr) (he : user_ptr + len ≤ user_stack_top) where
  -- Within the region, the pages of a range pass when its bytes do.
  AllPages-AllBytes :
      AllPages space write (page_of user_ptr) (page_of (user_ptr + len - 1))
      → AllBytes space write user_ptr len
  AllPages-AllBytes all va a b =
      user_page_ok-UserByte space write va (page_of va) refl
        (all (page_of va) (omega arith) (omega arith) (omega arith))

  AllBytes-AllPages :
      AllBytes space write user_ptr len
      → AllPages space write (page_of user_ptr) (page_of (user_ptr + len - 1))
  AllBytes-AllPages all q a b m = elim (Bool-cases (ltb q user_ptr)) [
    | inl before ↦
        UserByte-user_page_ok space write user_ptr q (ground arith)
          (all user_ptr (omega arith) (omega arith))
    | inr inside ↦
        UserByte-user_page_ok space write q q (omega arith) (all q (ground arith) (omega arith))
  ]

  in_region :
      (r : Bool) × (user_access_ok f space user_ptr len write ≡ some r)
      × (r ≡ true → AllBytes space write user_ptr len)
      × (AllBytes space write user_ptr len → r ≡ true)
  unfolding user_access_ok
  in_region =
      let whole : add32 user_ptr len ≡ user_ptr + len = omega arith in
      let nonzero : (len == 0) ≡ false = ground arith in
      let pointer : (user_ptr == 0) ≡ false = ground arith in
      let no_wrap : ltb (user_ptr + len) user_ptr ≡ false = ground arith in
      let low : ltb user_ptr user_code_base ≡ false = ground arith in
      let high : ltb user_stack_top (user_ptr + len) ≡ false = ground arith in
      let (r, run, to, from) =
        pages_ok_lem f space write (page_of user_ptr) (page_of (user_ptr + len - 1)) (omega arith)
          (omega arith) (omega arith) (omega arith) (omega arith) in
      (
        r,
        rw (nonzero, pointer)
            (ap (λ (e : ℕ). range_ok f space user_ptr e write) whole ∙ rw (no_wrap, low, high) run),
        λ c. AllPages-AllBytes (to c),
        λ all. from (AllBytes-AllPages all),
      )

-- With that fuel `user_access_ok` returns for any range that is not empty, and says yes exactly when every byte of
-- the range is mapped for the program, writable if that is asked, and in the user's region.
pub user_access_ok_iff :
    (f : ℕ) (space : AddressSpace) (write : Bool) (user_ptr len : ℕ)
    → page_fuel ≤ f
    → len ≢ 0
    → user_ptr < 2 ^ 32
    → len < 2 ^ 32
    → (r : Bool) × (user_access_ok f space user_ptr len write ≡ some r)
      × (r ≡ true → AllBytes space write user_ptr len)
      × (AllBytes space write user_ptr len → r ≡ true)
unfolding user_access_ok
user_access_ok_iff f space write user_ptr len hf hl small_ptr small_len =
    elim (Bool-cases (ltb user_ptr user_code_base)) [
      | inl low ↦ (
        false,
        ground arith,
        λ c. absurd (ground arith),
        λ all.
            let first = all user_ptr (omega arith) (omega arith) in
            absurd (ground (arith, first.above)),
      )
      | inr from_base ↦ elim (Bool-cases (leb (user_ptr + len) user_stack_top)) [
        | inl fits ↦ in_region f hf space write user_ptr len hl (ground arith) (ground arith)
        | inr past ↦ (
          false,
          ground arith,
          λ c. absurd (ground arith),
          λ all.
              let last = all (user_ptr + len - 1) (omega arith) (omega arith) in
              absurd (ground (arith, last.below)),
        )
      ]
    ]
