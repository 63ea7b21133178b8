-- ===== src/UserAccess/Pages.antt =====
-- What the page checks of src/mm/user_access.c say of single bytes.
use eyn_os.Base.{
  ℕ, zero, suc, ◌+◌, ◌/◌, ◌%◌, ◌-◌, ◌^◌, ◌<◌, ◌≤◌, ◌≡◌, ◌∙◌, refl, sym, ap, subst, Bool, true,
  false, some, ◌==◌, arith, inl, inr, Bool-cases, Option-cases,
}
use eyn_os.Base.Bits.{test_bit}
use eyn_os.UserAccess.{
  AddressSpace, walk_page_tables, user_page_ok, page_of, pages_ok, page_size, user_code_base,
  user_stack_top, bit_present, bit_rw, bit_user,
}

-- A byte that a program may read, or also write: it lies in the user's region, on a page that is
-- present and the user's, and writable if it is to be written.
pub record UserByte (space : AddressSpace) (write : Bool) (va : ℕ) : Type 0 where
  pub above : user_code_base ≤ va
  pub below : va < user_stack_top
  pub flags : ℕ
  pub mapped : walk_page_tables space va ≡ some flags
  pub present : test_bit flags bit_present ≡ true
  pub user : test_bit flags bit_user ≡ true
  pub writable : write ≡ true → test_bit flags bit_rw ≡ true

-- All bytes of a page have one entry.
walk-page_of :
    (space : AddressSpace) (va q : ℕ)
    → page_of va ≡ q
    → walk_page_tables space va ≡ walk_page_tables space q
unfolding walk_page_tables
walk-page_of space va q e =
    let high : va / 2 ^ 22 % 1024 ≡ q / 2 ^ 22 % 1024 = omega arith in
    let low : va / 2 ^ 12 % 1024 ≡ q / 2 ^ 12 % 1024 = omega arith in rw (high, low) refl

pub user_page_ok-UserByte :
    (space : AddressSpace) (write : Bool) (va q : ℕ)
    → page_of va ≡ q
    → user_page_ok space q write ≡ true
    → UserByte space write va
unfolding user_page_ok
user_page_ok-UserByte space write va q e ok = elim (Option-cases (walk_page_tables space q)) [
  | inl n ↦ absurd (ground arith)
  | inr (flags, m) ↦ record {
    above = ground arith;
    below = ground arith;
    flags = flags;
    mapped = walk-page_of space va q e ∙ m;
    present = ground arith;
    user = ground arith;
    writable = λ w. ground arith;
  }
]

pub UserByte-user_page_ok :
    (space : AddressSpace) (write : Bool) (va q : ℕ)
    → page_of va ≡ q
    → UserByte space write va
    → user_page_ok space q write ≡ true
unfolding user_page_ok
UserByte-user_page_ok space write va q e b =
    let m = sym (walk-page_of space va q e) ∙ b.mapped in
    elim (Bool-cases write) [
      | inl w ↦ let rw_bit = b.writable w in ground (arith, b.present, b.user, b.above, b.below)
      | inr w ↦ ground (arith, b.present, b.user, b.above, b.below)
    ]

-- From one page to another, every page passes.
abbrev pub AllPages : AddressSpace → Bool → (page end_page : ℕ) → Type 0
AllPages space write page end_page =
    (q : ℕ) → page ≤ q → q ≤ end_page → q % page_size ≡ 0 → user_page_ok space q write ≡ true

-- With fuel for the pages that are left, the loop ends, and says whether all of them pass.
pub pages_ok_lem :
    (f : ℕ) (space : AddressSpace) (write : Bool) (page end_page : ℕ)
    → page ≤ end_page
    → page % page_size ≡ 0
    → end_page % page_size ≡ 0
    → end_page < 2 ^ 32
    → (end_page - page) / page_size < f
    → (r : Bool) × (pages_ok f space page end_page write ≡ some r)
      × (r ≡ true → AllPages space write page end_page)
      × (AllPages space write page end_page → r ≡ true)
unfolding pages_ok
pages_ok_lem zero space write page end_page le at_page at_end small hf = absurd (omega arith)
pages_ok_lem (suc f) space write page end_page le at_page at_end small hf =
    elim (Bool-cases (user_page_ok space page write)) [
      | inr bad ↦ (
        false,
        rw bad refl,
        λ c. absurd (ground arith),
        λ all. sym bad ∙ all page (omega arith) le at_page,
      )
      | inl ok ↦ elim (Bool-cases (page == end_page)) [
        | inl last ↦ (
          true,
          rw (ok, last) refl,
          λ c q a b m.
              let same : page ≡ q = ground arith in
              subst (λ k. user_page_ok space k write ≡ true) same ok,
          λ all. refl,
        )
        | inr more ↦
            let next : (page + page_size) % 2 ^ 32 ≡ page + page_size = ground arith in
            let (r, run, to, from) =
              pages_ok_lem f space write (page + page_size) end_page (ground arith) (omega arith)
                at_end small (ground arith) in
            (
              r,
              rw (ok, more) (ap (λ p. pages_ok f space p end_page write) next ∙ run),
              λ c q a b m. elim (Bool-cases (page == q)) [
                | inl here ↦
                    let same : page ≡ q = ground arith in
                    subst (λ k. user_page_ok space k write ≡ true) same ok
                | inr past ↦ to c q (ground arith) b m
              ],
              λ all. from (λ q a b m. all q (omega arith) b m),
            )
      ]
    ]
