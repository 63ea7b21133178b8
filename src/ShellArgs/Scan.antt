-- ===== src/ShellArgs/Scan.antt =====
-- What the copying loop of src/utilities/shell/shell_args.c writes.
use eyn_os.Base.{
  ℕ, ◌+◌, ◌<◌, ◌≤◌, ◌≡◌, ◌∙◌, refl, true, false, List, [], ◌∷◌, inl, inr, length, leb, arith,
  update, update_self, update_ne, Bool-cases,
}
use eyn_os.ShellArgs.{Cursor, is_ws, copy_word, put_char, storage_bytes}
use eyn_os.ShellArgs.Words.{take_word, drop_word}

-- The bytes `xs` stand at `off`, and a NUL behind them.
abbrev pub Reads : (ℕ → ℕ) → ℕ → List ℕ → Type 0
Reads m off [] = m off ≡ 0
Reads m off (x ∷ xs) = (m off ≡ x) × Reads m (off + 1) xs

-- Reading sees only the bytes from `off` to the NUL.
pub Reads-same :
    (m n : ℕ → ℕ) (off end : ℕ) (xs : List ℕ)
    → off + length xs < end
    → ((j : ℕ) → j < end → n j ≡ m j)
    → Reads m off xs
    → Reads n off xs
Reads-same m n off end [] h same r = same off (omega arith) ∙ r
Reads-same m n off end (x ∷ xs) h same (r, rs) =
    (same off (omega arith) ∙ r, Reads-same m n (off + 1) end xs (omega arith) same rs)

-- The bytes `xs` written from `off` on.
unfoldable pub write : (ℕ → ℕ) → ℕ → List ℕ → ℕ → ℕ
write m off [] = m
write m off (x ∷ xs) = write (update m off x) (off + 1) xs

pub write-below : (m : ℕ → ℕ) (off : ℕ) (xs : List ℕ) (j : ℕ) → j < off → write m off xs j ≡ m j
unfolding write
write-below m off [] j h = refl
write-below m off (x ∷ xs) j h =
    write-below (update m off x) (off + 1) xs j (omega arith)
    ∙ update_ne m off j x (λ e. omega arith)

pub Reads-write :
    (m : ℕ → ℕ) (off : ℕ) (xs : List ℕ) (end : ℕ)
    → off + length xs ≡ end
    → Reads (update (write m off xs) end 0) off xs
unfolding write
Reads-write m off [] end e = ground arith
Reads-write m off (x ∷ xs) end e = (
  update_ne (write (update m off x) (off + 1) xs) end off 0 (λ h. omega arith)
      ∙ write-below (update m off x) (off + 1) xs off (omega arith)
      ∙ update_self m off x,
  Reads-write (update m off x) (off + 1) xs end (omega arith),
)

-- The parser behind a word that fitted.
abbrev pub copied : List ℕ → (i w : ℕ) → Cursor → Cursor
copied cs i w s = record s {
  rest = drop_word cs;
  i = i;
  w = w;
  args = record (s.args) { storage = write s.args.storage s.w (take_word cs) };
}

pub copy_word-fits :
    (cs : List ℕ) (s : Cursor) (i w : ℕ)
    → s.i + length (take_word cs) ≡ i
    → s.w + length (take_word cs) ≡ w
    → w < storage_bytes
    → copy_word cs s ≡ (true, copied cs i w s)
unfolding copy_word take_word drop_word write
copy_word-fits [] s i w ei ew h =
    let same_i : s.i ≡ i = omega arith in
    let same_w : s.w ≡ w = omega arith in rw (← same_i, ← same_w) refl
copy_word-fits (c ∷ cs) s i w ei ew h = elim (Bool-cases (is_ws c)) [
  | inl e ↦
      let same_i : s.i ≡ i = ground arith in
      let same_w : s.w ≡ w = ground arith in rw (← same_i, ← same_w, e) refl
  | inr e ↦
      let room : leb storage_bytes (s.w + 1) ≡ false = ground arith in
      rw (e, room) (copy_word-fits cs (put_char c s) i w (ground arith) (ground arith) h)
]

pub copy_word-overflow :
    (c : ℕ) (cs : List ℕ) (s : Cursor)
    → is_ws c ≡ false
    → storage_bytes ≤ s.w + length (take_word (c ∷ cs))
    → (copy_word (c ∷ cs) s).0 ≡ false
unfolding copy_word take_word
copy_word-overflow c [] s e h = ground arith
copy_word-overflow c (d ∷ ds) s e h = elim (Bool-cases (is_ws d)) [
  | inl b ↦ ground arith
  | inr b ↦ elim (Bool-cases (leb storage_bytes (s.w + 1))) [
    | inl f ↦ ground arith
    | inr f ↦ rw (e, f) (copy_word-overflow d ds (put_char c s) b (ground arith))
  ]
]
