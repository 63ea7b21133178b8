-- ===== src/Capabilities/Lifetime.antt =====
-- How long a token of src/misc/capabilities.c is valid.
use eyn_os.Base.{
  ℕ, ◌^◌, ◌<◌, ◌≡◌, ◌≢◌, ◌∙◌, true, false, ◌||◌, some, inl, inr, List, bit_and, arith, ◌==◌,
  Option-cases, Bool-cases,
}
use eyn_os.Capabilities.{
  Cap, Caps, obj_none, find_entry, make_tag, mint, ptr_to_obj32, register, validate,
}
use eyn_os.Capabilities.Registry.{register_found}
use eyn_os.Capabilities.Mint.{validate-mint}
use eyn_os.Capabilities.Revoke.{Op, run, revocations, run-Moved}

-- What a successful mint says of its arguments and of the registry.
pub record Minted (obj type : ℕ) (c : Cap) (s : Caps) : Type 0 where
  pub obj_ne : obj ≢ 0
  pub type_ne : type ≢ 0
  pub slot : ℕ
  pub found : find_entry s obj type ≡ some slot
  pub epoch : c.epoch ≡ (s.registry slot).epoch

pub mint-Minted :
    (obj type rights : ℕ) (s : Caps) (c : Cap)
    → (mint obj type rights s).0 ≡ some c
    → Minted obj type c (mint obj type rights s).1
unfolding mint
mint-Minted obj type rights s c e = elim (Bool-cases ((obj == 0) || (type == obj_none))) [
  | inl h ↦ absurd (ground arith)
  | inr h ↦ elim (Option-cases (ptr_to_obj32 obj)) [
    | inl n ↦ absurd (ground arith)
    | inr (o, p) ↦ elim (Bool-cases (register obj type s).0) [
      | inl r ↦
          let (i, f) = register_found obj type s r in
          record {
            obj_ne = ground arith;
            type_ne = ground arith;
            slot = i;
            found = ground arith;
            epoch = ground arith;
          }
      | inr r ↦ absurd (ground arith)
    ]
  ]
]

-- A token of another epoch is refused.
stale :
    (s : Caps) (c : Cap) (obj type required i : ℕ)
    → find_entry s obj type ≡ some i
    → (s.registry i).epoch ≢ c.epoch
    → validate s c obj type required ≡ false
unfolding validate
stale s c obj type required i f ne = ground arith

-- Under one secret and one epoch the same tokens are valid.
same_epoch :
    (s t : Caps) (c : Cap) (obj type required i : ℕ)
    → find_entry s obj type ≡ some i
    → find_entry t obj type ≡ some i
    → (t.registry i).epoch ≡ (s.registry i).epoch
    → t.s0 ≡ s.s0
    → t.s1 ≡ s.s1
    → validate t c obj type required ≡ validate s c obj type required
unfolding validate make_tag
same_epoch s t c obj type required i f g e h0 h1 = ground arith

module _ (obj type rights : ℕ) (s : Caps) (c : Cap) (os : List Op)
    (e : (mint obj type rights s).0 ≡ some c) where
  -- A minted token stays valid as long as its object is not revoked, whatever else is registered,
  -- minted or revoked.
  pub validate-unrevoked :
      (required : ℕ)
      → bit_and rights required ≡ required
      → revocations obj type os ≡ 0
      → validate (run os (mint obj type rights s).1) c obj type required ≡ true
  validate-unrevoked required sub z =
      let t = (mint obj type rights s).1 in
      let m = mint-Minted obj type rights s c e in
      let r = run-Moved obj type m.slot os t m.obj_ne m.type_ne m.found in
      same_epoch t (run os t) c obj type required m.slot m.found r.found (r.kept z) r.s0 r.s1
      ∙ validate-mint obj type rights required s c e sub

  -- Once its object has been revoked the token is never valid again, for any rights and whatever
  -- follows, short of 2 ^ 32 revocations of that object.
  pub validate-revoked :
      (required : ℕ)
      → revocations obj type os ≢ 0
      → revocations obj type os < 2 ^ 32
      → validate (run os (mint obj type rights s).1) c obj type required ≡ false
  validate-revoked required nz small =
      let t = (mint obj type rights s).1 in
      let m = mint-Minted obj type rights s c e in
      let r = run-Moved obj type m.slot os t m.obj_ne m.type_ne m.found in
      stale (run os t) c obj type required m.slot r.found
        (λ h. omega (arith, r.epoch, r.word nz, m.epoch, h))
