-- ===== src/ZeroCopy/Links.antt =====
-- A write inside a file by src/utilities/zero_copy.c leaves the links of all blocks alone and ends.
use eyn_os.Base.{
  ℕ, zero, suc, ◌+◌, ◌-◌, ◌<◌, ◌≤◌, ◌≡◌, ◌∙◌, refl, ap, Bool, false, not, ◌||◌, Option, some, leb,
  ltb, ◌==◌, min, inl, inr, ◌⊎◌, Bool-cases, arith,
}
use eyn_os.ZeroCopy.{Entry, failed}
use eyn_os.ZeroCopy.InPlace.{
  payload, Disk, Cache, next_block, Start, at, unread, skip_blocks, put_piece, write_rest,
  write_from, write_in_place,
}

-- The links of all blocks are the same.
abbrev pub Linked : Disk → Disk → Type 0
Linked d t = (b i : ℕ) → i < 4 → t b i ≡ d b i

put_piece-Linked :
    (d : Disk) (block place : ℕ) (source : ℕ → ℕ) (chunk : ℕ)
    → Linked d (put_piece d block place source chunk)
put_piece-Linked d block place source chunk b i h = elim (Bool-cases (block == b)) [
  | inl e ↦
      let same : block ≡ b = ground arith in
      let before : leb (4 + place) i ≡ false = ground arith in rw (e, before) (ap (λ k. d k i) same)
  | inr e ↦ rw e refl
]

-- The write ended: it wrote no more than it should, or failed, and no link changed.
pub record InPlace (d : Disk) (size : ℕ) (r : Option (ℕ × Disk)) : Type 0 where
  pub written : ℕ
  pub disk : Disk
  pub result : r ≡ some (written, disk)
  pub amount : (written ≤ size) ⊎ (written ≡ failed)
  pub links : Linked d disk

InPlace-after :
    (d t : Disk) (size : ℕ) (r : Option (ℕ × Disk))
    → Linked d t
    → InPlace t size r
    → InPlace d size r
InPlace-after d t size r l p = record {
  written = p.written;
  disk = p.disk;
  result = p.result;
  amount = p.amount;
  links = λ b i h. p.links b i h ∙ l b i h;
}

write_rest-InPlace :
    (f : ℕ) (c : Cache) (d : Disk) (block : ℕ) (source : ℕ → ℕ) (total left size : ℕ)
    → left < f
    → total + left ≤ size
    → InPlace d size (write_rest f c d block source total left)
unfolding write_rest
write_rest-InPlace zero c d block source total left size hf hs = absurd (omega arith)
write_rest-InPlace (suc f) c d block source total left size hf hs =
    elim (Bool-cases ((block == 0) || (left == 0))) [
      | inl ends ↦ simp ends (record {
        written = total;
        disk = d;
        result = refl;
        amount = inl (omega arith);
        links = λ b i h. refl;
      })
      | inr more ↦ elim (Bool-cases (not (c.reads block) || not (c.writes block))) [
        | inl bad ↦
            simp (more, bad)
              (record {
                written = failed;
                disk = d;
                result = refl;
                amount = inr refl;
                links = λ b i h. refl;
              })
        | inr good ↦
            let chunk = min payload left in
            let t = put_piece d block 0 (λ i. source (total + i)) chunk in
            let some_left : 0 < left = ground arith in
            simp (more, good)
              (InPlace-after d t size _ (put_piece-Linked d block 0 (λ i. source (total + i)) chunk)
                (write_rest-InPlace f c t (next_block (d block)) source (total + chunk)
                  (left - chunk) size (omega arith) (omega arith)))
      ]
    ]

skip_blocks-some :
    (f : ℕ) (c : Cache) (d : Disk) (block skip : ℕ)
    → skip < f
    → (s : Start) × (skip_blocks f c d block skip ≡ some s)
unfolding skip_blocks
skip_blocks-some zero c d block skip h = absurd (omega arith)
skip_blocks-some (suc f) c d block skip h = elim (Bool-cases ((block == 0) || ltb skip payload)) [
  | inl e ↦ simp e (at block skip, refl)
  | inr e ↦ elim (Bool-cases (not (c.reads block))) [
    | inl bad ↦ simp (e, bad) (unread, refl)
    | inr good ↦
        let far : payload ≤ skip = ground arith in
        simp (e, good)
          (skip_blocks-some f c d (next_block (d block)) (skip - payload) (omega arith))
  ]
]

write_from-InPlace :
    (f : ℕ) (c : Cache) (d : Disk) (source : ℕ → ℕ) (size : ℕ) (s : Start)
    → size < f
    → InPlace d size (write_from f c d source size (some s))
write_from-InPlace f c d source size unread h = record {
  written = failed;
  disk = d;
  result = refl;
  amount = inr refl;
  links = λ b i hi. refl;
}
write_from-InPlace f c d source size (at block skip) h =
    elim (Bool-cases ((block == 0) || (size == 0))) [
      | inl ends ↦ simp ends (write_rest-InPlace f c d block source 0 size size h (omega arith))
      | inr more ↦ elim (Bool-cases (not (c.reads block) || not (c.writes block))) [
        | inl bad ↦
            simp (more, bad)
              (record {
                written = failed;
                disk = d;
                result = refl;
                amount = inr refl;
                links = λ b i hi. refl;
              })
        | inr good ↦
            let chunk = min (payload - skip) size in
            let t = put_piece d block skip source chunk in
            simp (more, good)
              (InPlace-after d t size _ (put_piece-Linked d block skip source chunk) (
                write_rest-InPlace f c t (next_block (d block)) source chunk (size - chunk) size
                  (omega arith) (omega arith)))
      ]
    ]

-- With more fuel than the size and the offset, `eynfs_zero_copy_write` ends; it reports at most the
-- size that was asked for, or -1, and whatever the cache refuses on the way, the link of no block of
-- the drive changes.
pub write_in_place-InPlace :
    (f : ℕ) (allowed : Bool) (c : Cache) (d : Disk) (entry : Entry) (source : ℕ → ℕ)
    (size offset : ℕ)
    → size + offset < f
    → InPlace d size (write_in_place f allowed c d entry source size offset)
unfolding write_in_place
write_in_place-InPlace f allowed c d entry source size offset h =
    elim (Bool-cases (
      not entry.is_file
      || ltb entry.size offset
      || ltb (entry.size - offset) size
      || not allowed)) [
        | inl bad ↦ simp bad (record {
          written = failed;
          disk = d;
          result = refl;
          amount = inr refl;
          links = λ b i hi. refl;
        })
        | inr good ↦
            let (s, found) = skip_blocks-some f c d entry.first_block offset (omega arith) in
            simp (good, found) (write_from-InPlace f c d source size s (omega arith))
      ]
