-- ===== src/Capabilities/Revoke.antt =====
-- Histories of the registry of src/misc/capabilities.c: what revocation does to tokens, whatever else
-- is registered, minted or revoked.
use eyn_os.Base.{
  ℕ, ◌+◌, ◌%◌, ◌^◌, ◌<◌, ◌≡◌, ◌≢◌, ◌∙◌, sym, ap, subst, refl, false, ◌&&◌, ◌||◌, Option, none, some,
  inl, inr, List, [], ◌∷◌, arith, ◌==◌, ==_iff, if◌then◌else◌, Option-cases, Bool-cases,
}
use mathlib.Core.Path.{subst₂}
use eyn_os.Base.Loop.{find_from, find_from-some}
use eyn_os.Capabilities.{
  Caps, obj_none, registry_max, find_entry, put_entry, new_entry, bump_epoch, register, keep_or_add,
  add_entry, revoke, revoke_at, mint, mint_registered, ptr_to_obj32,
}
use eyn_os.Capabilities.Registry.{
  find_entry-some, find_entry-none, find_entry-put_ne, find_entry-put_self,
}

pub data Op : Type 0 where
  registers : (obj type : ℕ) → Op
  revokes : (obj type : ℕ) → Op
  mints : (obj type rights : ℕ) → Op

unfoldable pub step : Op → Caps → Caps
step (registers obj type) s = (register obj type s).1
step (revokes obj type) s = (revoke obj type s).1
step (mints obj type rights) s = (mint obj type rights s).1

unfoldable pub run : List Op → Caps → Caps
run [] s = s
run (o ∷ os) s = run os (step o s)

abbrev pub revokes_it : (obj type : ℕ) → Op → ℕ
revokes_it obj type (revokes o t) = if (o == obj) && (t == type) then 1 else 0
revokes_it obj type _ = 0

-- How often a history revokes an object.
abbrev pub revocations : (obj type : ℕ) → List Op → ℕ
revocations obj type [] = 0
revocations obj type (o ∷ os) = revokes_it obj type o + revocations obj type os

-- The object still stands at entry `i`, with its epoch moved on by `n`, under the same secret.
pub record Moved (obj type i n : ℕ) (s t : Caps) : Type 0 where
  pub found : find_entry t obj type ≡ some i
  pub epoch : (t.registry i).epoch % 2 ^ 32 ≡ ((s.registry i).epoch + n) % 2 ^ 32
  pub kept : n ≡ 0 → (t.registry i).epoch ≡ (s.registry i).epoch
  pub word : n ≢ 0 → (t.registry i).epoch < 2 ^ 32
  pub s0 : t.s0 ≡ s.s0
  pub s1 : t.s1 ≡ s.s1

module _ (obj type i : ℕ) (ho : obj ≢ 0) (ht : type ≢ 0) (s : Caps)
    (f : find_entry s obj type ≡ some i) where
  Moved-refl : Moved obj type i 0 s s
  Moved-refl = record {
    found = f;
    epoch = omega arith;
    kept = λ e. refl;
    word = λ e. absurd (e refl);
    s0 = refl;
    s1 = refl;
  }

  add_entry-Moved :
      (o t : ℕ) (slot : Option ℕ)
      → find_entry s o t ≡ none
      → ((k : ℕ) → slot ≡ some k → (s.registry k).obj ≡ 0)
      → Moved obj type i 0 s (add_entry s o t slot).1
  add_entry-Moved o t none n free = Moved-refl
  add_entry-Moved o t (some k) n free =
      let at = find_entry-some s obj type i f in
      let ne : k ≢ i =
        λ e. ho (sym at.1 ∙ sym (ap (λ (j : ℕ). (s.registry j).obj) e) ∙ free k refl) in
      record {
        found =
            find_entry-put_ne s k (new_entry o t) obj type i f ne
              (ground (arith, find_entry-none s o t i n at.0, at));
        epoch = ground arith;
        kept = λ e. ground arith;
        word = λ e. absurd (e refl);
        s0 = refl;
        s1 = refl;
      }

  register-Moved : (o t : ℕ) → Moved obj type i 0 s (register o t s).1
  unfolding register
  register-Moved o t = elim (Bool-cases ((o == 0) || (t == obj_none))) [
    | inl h ↦ rw h Moved-refl
    | inr h ↦ elim (Option-cases (ptr_to_obj32 o)) [
      | inl n ↦ rw h (rw n Moved-refl)
      | inr (o32, p) ↦ rw h (
          rw p (elim (Option-cases (find_entry s o t)) [
            | inr (k, g) ↦ rw (g, keep_or_add) Moved-refl
            | inl g ↦
                rw (g, keep_or_add)
                  (add_entry-Moved o t (find_from registry_max 0 (λ k. (s.registry k).obj == 0)) g
                    (λ k e.
                      ground
                        (arith, find_from-some registry_max 0 (λ k. (s.registry k).obj == 0) k e)))
          ]))
    ]
  ]

  mint-Moved : (o t rights : ℕ) → Moved obj type i 0 s (mint o t rights s).1
  unfolding mint
  mint-Moved o t rights = elim (Bool-cases ((o == 0) || (t == obj_none))) [
    | inl h ↦ rw h Moved-refl
    | inr h ↦ elim (Option-cases (ptr_to_obj32 o)) [
      | inl n ↦ rw h (rw n Moved-refl)
      | inr (o32, p) ↦ rw h (
          rw p (elim (Bool-cases (register o t s).0) [
            | inl r ↦ rw (r, mint_registered) (register-Moved o t)
            | inr r ↦ rw (r, mint_registered) (register-Moved o t)
          ]))
    ]
  ]

  revoke_self :
      (k : ℕ)
      → find_entry s obj type ≡ some k
      → Moved obj type i 1 s (put_entry s k (bump_epoch (s.registry k)))
  revoke_self k g =
      let same : k ≡ i = ground arith in
      subst (λ j. Moved obj type i 1 s (put_entry s j (bump_epoch (s.registry j)))) (sym same)
        (record {
          found =
              find_entry-put_self s (bump_epoch (s.registry i)) obj type i f
                (find_entry-some s obj type i f).1 (find_entry-some s obj type i f).2;
          epoch = ground arith;
          kept = λ e. absurd (omega arith);
          word = λ e. ground arith;
          s0 = refl;
          s1 = refl;
        })

  revoke_other :
      (o t k : ℕ)
      → find_entry s o t ≡ some k
      → ((o == obj) && (t == type)) ≡ false
      → Moved obj type i 0 s (put_entry s k (bump_epoch (s.registry k)))
  revoke_other o t k g miss =
      let at = find_entry-some s obj type i f in
      let other = find_entry-some s o t k g in
      let ne : (k == i) ≡ false = elim (Bool-cases (k == i)) [
        | inl e ↦ ground (arith, ap (λ (j : ℕ). s.registry j) ((==_iff k i).0 e))
        | inr e ↦ e
      ] in
      record {
        found =
            find_entry-put_ne s k (bump_epoch (s.registry k)) obj type i f (ground arith)
              (ground arith);
        epoch = ground arith;
        kept = λ e. ground arith;
        word = λ e. absurd (e refl);
        s0 = refl;
        s1 = refl;
      }

  revoke_at-Moved :
      (o t k : ℕ)
      → find_entry s o t ≡ some k
      → Moved obj type i
          (revokes_it obj type (revokes o t))
          s
          (put_entry s k (bump_epoch (s.registry k)))
  revoke_at-Moved o t k g = elim (Bool-cases ((o == obj) && (t == type))) [
    | inl e ↦
        rw e (
          revoke_self k (subst₂ (λ a b. find_entry s a b ≡ some k) (ground arith) (ground arith) g))
    | inr e ↦ rw e (revoke_other o t k g e)
  ]

  revoke-Moved : (o t : ℕ) → Moved obj type i (revokes_it obj type (revokes o t)) s (revoke o t s).1
  unfolding revoke
  revoke-Moved o t = elim (Bool-cases ((o == 0) || (t == obj_none))) [
    | inl h ↦ rw h (subst (λ n. Moved obj type i n s s) (ground arith) Moved-refl)
    | inr h ↦ rw h (elim (Option-cases (find_entry s o t)) [
      | inl n ↦
          rw (n, revoke_at)
            (subst (λ k. Moved obj type i k s s)
              (ground (
                arith,
                find_entry-none s o t i n (find_entry-some s obj type i f).0,
                find_entry-some s obj type i f,
              ))
              Moved-refl)
      | inr (k, g) ↦ rw (g, revoke_at) (revoke_at-Moved o t k g)
    ])
  ]

  step-Moved : (o : Op) → Moved obj type i (revokes_it obj type o) s (step o s)
  unfolding step
  step-Moved (registers o t) = register-Moved o t
  step-Moved (revokes o t) = revoke-Moved o t
  step-Moved (mints o t rights) = mint-Moved o t rights

Moved-trans :
    (obj type i m n : ℕ) (s t u : Caps)
    → Moved obj type i m s t
    → Moved obj type i n t u
    → Moved obj type i (m + n) s u
Moved-trans obj type i m n s t u a b = record {
  found = b.found;
  epoch = omega (arith, a.epoch, b.epoch);
  kept = λ e. b.kept (omega arith) ∙ a.kept (omega arith);
  word = λ e. elim (Bool-cases (n == 0)) [
    | inl z ↦ let z' : n ≡ 0 = ground arith in omega (arith, b.kept z', a.word (omega arith))
    | inr z ↦ b.word (ground arith)
  ];
  s0 = b.s0 ∙ a.s0;
  s1 = b.s1 ∙ a.s1;
}

pub run-Moved :
    (obj type i : ℕ) (os : List Op) (s : Caps)
    → obj ≢ 0
    → type ≢ 0
    → find_entry s obj type ≡ some i
    → Moved obj type i (revocations obj type os) s (run os s)
unfolding run
run-Moved obj type i [] s ho ht f = Moved-refl obj type i ho ht s f
run-Moved obj type i (o ∷ os) s ho ht f =
    let m = step-Moved obj type i ho ht s f o in
    Moved-trans obj type i (revokes_it obj type o) (revocations obj type os) s (step o s)
      (run os (step o s)) m (run-Moved obj type i os (step o s) ho ht m.found)
