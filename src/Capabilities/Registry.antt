-- ===== src/Capabilities/Registry.antt =====
-- Lookups in the registry of src/misc/capabilities.c as it changes.
use eyn_os.Base.{
  ℕ, ◌+◌, ◌<◌, ◌≡◌, ◌≢◌, refl, true, false, ◌&&◌, ◌||◌, Option, none, some, inl, inr, arith, ◌==◌,
  Bool-cases, Option-cases,
}
use eyn_os.Base.Loop.{find_from, find_from-some, find_from-first, find_from-none, find_from_unique}
use eyn_os.Capabilities.{
  Caps, Entry, registry_max, matches, find_entry, put_entry, new_entry, register, ptr_to_obj32,
  keep_or_add, add_entry, obj_none,
}

pub find_entry-some :
    (s : Caps) (obj type i : ℕ)
    → find_entry s obj type ≡ some i
    → (i < registry_max) × ((s.registry i).obj ≡ obj) × ((s.registry i).type ≡ type)
unfolding find_entry
find_entry-some s obj type i e =
    ground (arith, find_from-some registry_max 0 (matches s obj type) i)

-- The lookup finds the first entry that matches.
pub find_entry_of :
    (s : Caps) (obj type i : ℕ)
    → i < registry_max
    → matches s obj type i ≡ true
    → ((j : ℕ) → j < i → matches s obj type j ≡ false)
    → find_entry s obj type ≡ some i
unfolding find_entry
find_entry_of s obj type i hi m before =
    find_from_unique registry_max 0 (matches s obj type) i (omega arith) (omega arith) m
      (λ j a b. before j b)

pub find_entry_before :
    (s : Caps) (obj type i j : ℕ)
    → find_entry s obj type ≡ some i
    → j < i
    → matches s obj type j ≡ false
unfolding find_entry
find_entry_before s obj type i j e h =
    find_from-first registry_max 0 (matches s obj type) i j e (omega arith) h

pub find_entry-none :
    (s : Caps) (obj type j : ℕ)
    → find_entry s obj type ≡ none
    → j < registry_max
    → matches s obj type j ≡ false
unfolding find_entry
find_entry-none s obj type j e h =
    find_from-none registry_max 0 (matches s obj type) j e (omega arith) (omega arith)

-- A write to an entry that does not match before or after leaves the lookup alone.
pub find_entry-put_ne :
    (s : Caps) (k : ℕ) (e : Entry) (obj type i : ℕ)
    → find_entry s obj type ≡ some i
    → k ≢ i
    → ((e.obj == obj) && (e.type == type)) ≡ false
    → find_entry (put_entry s k e) obj type ≡ some i
find_entry-put_ne s k e obj type i h ne miss =
    find_entry_of (put_entry s k e) obj type i (find_entry-some s obj type i h).0
      (ground (arith, find_entry-some s obj type i h))
      (λ j b. ground (arith, find_entry_before s obj type i j h b))

-- A write that keeps the name of the entry leaves the lookup alone.
pub find_entry-put_self :
    (s : Caps) (e : Entry) (obj type i : ℕ)
    → find_entry s obj type ≡ some i
    → e.obj ≡ obj
    → e.type ≡ type
    → find_entry (put_entry s i e) obj type ≡ some i
find_entry-put_self s e obj type i h o t =
    find_entry_of (put_entry s i e) obj type i (find_entry-some s obj type i h).0 (ground arith)
      (λ j b. ground (arith, find_entry_before s obj type i j h b))

added_found :
    (s : Caps) (obj type : ℕ) (slot : Option ℕ)
    → find_entry s obj type ≡ none
    → ((i : ℕ) → slot ≡ some i → i < 0 + registry_max)
    → (add_entry s obj type slot).0 ≡ true
    → (i : ℕ) × (find_entry (add_entry s obj type slot).1 obj type ≡ some i)
added_found s obj type none f bound k = cc
added_found s obj type (some i) f bound k = (
  i,
  find_entry_of (put_entry s i (new_entry obj type)) obj type i (omega (arith, bound i refl))
      (ground arith)
      (λ j b. ground (arith, find_entry-none s obj type j f (omega (arith, bound i refl)))),
)

-- A registered object is found.
pub register_found :
    (obj type : ℕ) (s : Caps)
    → (register obj type s).0 ≡ true
    → (i : ℕ) × (find_entry (register obj type s).1 obj type ≡ some i)
unfolding register
register_found obj type s e = elim (Bool-cases ((obj == 0) || (type == obj_none))) [
  | inl h ↦ absurd (ground arith)
  | inr h ↦ elim (Option-cases (ptr_to_obj32 obj)) [
    | inl n ↦ absurd (ground arith)
    | inr (o, p) ↦ rw (h, p) (kept (rw (h, p) at e))
  ]
]
  where
    kept :
        (keep_or_add s obj type (find_entry s obj type)).0 ≡ true
        → (i : ℕ) × (find_entry (keep_or_add s obj type (find_entry s obj type)).1 obj type
            ≡ some i)
    kept k = elim (Option-cases (find_entry s obj type)) [
      | inr (i, f) ↦ rw (f, keep_or_add) (i, f)
      | inl f ↦
          rw (f, keep_or_add)
            (added_found s obj type (find_from registry_max 0 (λ i. (s.registry i).obj == 0)) f
              (λ i h. (find_from-some registry_max 0 (λ i. (s.registry i).obj == 0) i h).1)
              (rw (f, keep_or_add) at k))
    ]
