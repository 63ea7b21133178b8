-- ===== src/ShellArgs/Line.antt =====
-- What the interface of src/utilities/shell/shell_args.c promises for a whole line.
use eyn_os.Base.{
  ℕ, zero, suc, ◌+◌, ◌^◌, ◌<◌, ◌≤◌, ◌≡◌, ◌≢◌, ◌⊎◌, ◌∙◌, refl, sym, ap, List, [], ◌∷◌, inl, inr,
  length, leb, arith, Bool-cases, some,
}
use eyn_os.ShellArgs.{
  Args, Code, parsed, first_cursor, blank_args, parse, drop, rest_raw, storage_bytes, args_max,
}
use eyn_os.ShellArgs.Words.{words, size, IsRest}
use eyn_os.ShellArgs.Parse.{Parsed, Outcome, parse_loop-fits, parse_loop-refuses}

first_IsRest : (line : List ℕ) → IsRest line line 0
unfolding drop
first_IsRest line = record { rest = refl; index = omega arith }

parse_fits :
    (line : List ℕ)
    → length line < 2 ^ 16
    → length (words line) ≤ args_max
    → size (words line) ≤ storage_bytes
    → (b : Args) × (parse line ≡ some (parsed, b)) × Outcome line (first_cursor line) (words line) b
unfolding parse words
parse_fits [] small hc hw = (
  blank_args [],
  refl,
  record {
    argc = refl;
    storage = λ j h. refl;
    argv = λ k h. refl;
    raw_offs = λ k h. refl;
    raw = refl;
    raw_len = refl;
    holds = tt;
  },
)
parse_fits (c ∷ cs) small hc hw =
    parse_loop-fits (length (c ∷ cs) + 1) (c ∷ cs) (first_cursor (c ∷ cs)) (omega arith) small
      (first_IsRest (c ∷ cs)) (omega arith) (omega arith)

-- A line of fewer than 2^16 characters and at most 32 words, which with their NULs take at most 512
-- bytes, is parsed: `argc` counts the words, and each `argv` points at its word with a NUL behind it.
pub parse-words :
    (line : List ℕ)
    → length line < 2 ^ 16
    → length (words line) ≤ args_max
    → size (words line) ≤ storage_bytes
    → (b : Args) × (parse line ≡ some (parsed, b))
      × (b.argc ≡ length (words line))
      × Parsed b line 0 (words line)
parse-words line small hc hw =
    let (b, run, o) = parse_fits line small hc hw in (b, run, omega (arith, o.argc), o.holds)

-- A line of more words or more bytes is refused with an error, and `argc` is 0.
pub parse-refuses :
    (line : List ℕ)
    → (args_max < length (words line)) ⊎ (storage_bytes < size (words line))
    → (c : Code) × (b : Args) × (parse line ≡ some (c, b)) × (c ≢ parsed) × (b.argc ≡ 0)
unfolding parse words
parse-refuses [] big = absurd (ground arith)
parse-refuses (c ∷ cs) big =
    parse_loop-refuses (length (c ∷ cs) + 1) (c ∷ cs) (first_cursor (c ∷ cs)) (omega arith)
      (first_IsRest (c ∷ cs)) (omega arith) (omega arith) (ground arith)

-- Some words without the first `n`.
abbrev pub later : ℕ → List (List ℕ) → List (List ℕ)
later zero xs = xs
later (suc n) [] = []
later (suc n) (x ∷ xs) = later n xs

Parsed-later :
    (a : Args) (line : List ℕ) (k n m : ℕ) (xs : List (List ℕ))
    → Parsed a line k xs
    → k + n ≡ m
    → n < length xs
    → words (drop (a.raw_offs m) line) ≡ later n xs
Parsed-later a line k n m [] p e h = absurd (omega arith)
Parsed-later a line k zero m (x ∷ xs) (reads, here, more) e h =
    let same : k ≡ m = omega arith in rw (← same) here
Parsed-later a line k (suc n) m (x ∷ xs) (reads, here, more) e h =
    Parsed-later a line (k + 1) n m xs more (omega arith) (omega arith)

later-past : (n : ℕ) (xs : List (List ℕ)) → length xs ≤ n → later n xs ≡ []
later-past zero [] h = refl
later-past zero (x ∷ xs) h = absurd (omega arith)
later-past (suc n) [] h = refl
later-past (suc n) (x ∷ xs) h = later-past n xs (omega arith)

drop_end : (i : ℕ) (line : List ℕ) → length line ≤ i → drop i line ≡ []
unfolding drop
drop_end zero [] h = refl
drop_end zero (c ∷ cs) h = absurd (omega arith)
drop_end (suc i) [] h = refl
drop_end (suc i) (c ∷ cs) h = drop_end i cs (omega arith)

-- A line of fewer than 2^16 characters and at most 32 words, which with their NULs take at most 512
-- bytes, is parsed, and the raw line from argument `n` on then has the words from `n` on; past the last
-- argument it has none.
pub rest_raw-words :
    (line : List ℕ) (n : ℕ)
    → length line < 2 ^ 16
    → length (words line) ≤ args_max
    → size (words line) ≤ storage_bytes
    → (b : Args) × (parse line ≡ some (parsed, b)) × (words (rest_raw b n) ≡ later n (words line))
unfolding rest_raw words
rest_raw-words line n small hc hw =
    let (b, run, o) = parse_fits line small hc hw in
    (
      b,
      run,
      elim (Bool-cases (leb b.argc n)) [
        | inl past ↦ rw past (sym (later-past n (words line) (ground (arith, o.argc))))
        | inr inside ↦
            let found =
              Parsed-later b line 0 n n (words line) o.holds (omega arith)
                (ground (arith, o.argc)) in
            elim (Bool-cases (leb b.raw_len (b.raw_offs n))) [
              | inl out ↦
                  let past : length line ≤ b.raw_offs n = ground (arith, o.raw_len) in
                  rw (inside, out) (ap words (sym (drop_end (b.raw_offs n) line past)) ∙ found)
              | inr at ↦ rw (inside, at) (rw o.raw found)
            ]
      ],
    )
