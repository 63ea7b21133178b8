-- ===== src/ShellArgs/Parse.antt =====
-- `shell_args_parse` of src/utilities/shell/shell_args.c against the words of the line.
use eyn_os.Base.{
  ℕ, zero, suc, ◌+◌, ◌%◌, ◌^◌, ◌<◌, ◌≤◌, ◌≡◌, ◌≢◌, ◌⊎◌, ◌∙◌, refl, ap, List, [], ◌∷◌, inl, inr,
  length, leb, arith, update_self, update_ne, Bool-cases, some,
}
use eyn_os.ShellArgs.{
  Args, Cursor, Code, parsed, too_many, overflow, parse_loop, drop, storage_bytes, args_max,
}
use eyn_os.ShellArgs.Words.{
  words, size, take_word, drop_word, words-take_word, IsRest, IsRest-drop_word, no_words,
}
use eyn_os.ShellArgs.Scan.{Reads, Reads-same, Reads-write, write, write-below}
use eyn_os.ShellArgs.Next.{
  NextWord, next_cases, advanced, round_end, round-again, round_overflow, round_many, next_split,
  next_shorter,
}

-- Argument `k` and those behind it are the words `xs`: each stands in the storage with its NUL, and
-- the noted offset is where it starts in the line.
abbrev pub Parsed : Args → List ℕ → ℕ → List (List ℕ) → Type 0
Parsed a line k [] = Unit {0}
Parsed a line k (x ∷ xs) =
    Reads a.storage (a.argv k) x
    × (words (drop (a.raw_offs k) line) ≡ x ∷ xs)
    × Parsed a line (k + 1) xs

-- How `b` stands to the parser `s` it comes from, where the words `ws` were left.
pub record Outcome (line : List ℕ) (s : Cursor) (ws : List (List ℕ)) (b : Args) : Type 0 where
  pub argc : b.argc ≡ s.argc + length ws
  pub storage : (j : ℕ) → j < s.w → b.storage j ≡ s.args.storage j
  pub argv : (k : ℕ) → k < s.argc → b.argv k ≡ s.args.argv k
  pub raw_offs : (k : ℕ) → k < s.argc → b.raw_offs k ≡ s.args.raw_offs k
  pub raw : b.raw ≡ s.args.raw
  pub raw_len : b.raw_len ≡ s.args.raw_len
  pub holds : Parsed b line s.argc ws

module _ (line : List ℕ) (s : Cursor) (n : NextWord line s.rest s.i) where
  -- What the rest of the parser makes of the words behind the next one, seen from before it.
  Outcome-advanced :
      (b : Args)
      → length line < 2 ^ 16
      → Outcome line (advanced line s n) (words (drop_word (n.char ∷ n.more))) b
      → Outcome line s (words s.rest) b
  Outcome-advanced b small o =
      let x = take_word (n.char ∷ n.more) in
      let here : b.argv s.argc ≡ s.w =
        o.argv s.argc (omega arith) ∙ update_self s.args.argv s.argc s.w in
      let at : b.raw_offs s.argc ≡ n.at =
        o.raw_offs s.argc (omega arith)
        ∙ update_self s.args.raw_offs s.argc (n.at % 2 ^ 16)
        ∙ omega (arith, n.place.index) in
      let split = next_split line s.rest s.i n in
      rw split (record {
        argc = omega (arith, o.argc);
        storage = λ j h.
            o.storage j (omega arith)
            ∙ update_ne (write s.args.storage s.w x) (s.w + length x) j 0 (λ e. omega arith)
            ∙ write-below s.args.storage s.w x j h;
        argv =
            λ k h. o.argv k (omega arith) ∙ update_ne s.args.argv s.argc k s.w (λ e. omega arith);
        raw_offs = λ k h.
            o.raw_offs k (omega arith)
            ∙ update_ne s.args.raw_offs s.argc k (n.at % 2 ^ 16) (λ e. omega arith);
        raw = o.raw;
        raw_len = o.raw_len;
        holds = (
          rw here (
              Reads-same (advanced line s n).args.storage b.storage s.w (s.w + length x + 1) x
                (omega arith) o.storage (Reads-write s.args.storage s.w x (s.w + length x) refl)),
          rw (at, n.place.rest) (words-take_word n.char n.more n.starts),
          o.holds,
        );
      })

  IsRest-advanced : IsRest line (advanced line s n).rest (advanced line s n).i
  IsRest-advanced =
      IsRest-drop_word line (n.char ∷ n.more) n.at (n.at + length (take_word (n.char ∷ n.more)))
        n.place refl

pub parse_loop-fits :
    (f : ℕ) (line : List ℕ) (s : Cursor)
    → length s.rest < f
    → length line < 2 ^ 16
    → IsRest line s.rest s.i
    → s.argc + length (words s.rest) ≤ args_max
    → s.w + size (words s.rest) ≤ storage_bytes
    → (b : Args) × (parse_loop f s ≡ some (parsed, b)) × Outcome line s (words s.rest) b
unfolding parse_loop
parse_loop-fits zero line s hf small place hc hw = absurd (omega arith)
parse_loop-fits (suc f) line s hf small place hc hw = elim (next_cases line s.rest s.i place) [
  | inl e ↦ (
    record (s.args) { argc = s.argc },
    rw (round_end s e) refl,
    rw (no_words s.rest s.i e) (record {
      argc = omega arith;
      storage = λ j h. refl;
      argv = λ k h. refl;
      raw_offs = λ k h. refl;
      raw = refl;
      raw_len = refl;
      holds = tt;
    }),
  )
  | inr n ↦
      let t = advanced line s n in
      let split = next_split line s.rest s.i n in
      let args : length (words s.rest) ≡ suc (length (words t.rest)) = ap length split in
      let bytes : size (words s.rest)
          ≡ length (take_word (n.char ∷ n.more)) + 1 + size (words t.rest) =
        ap size split in
      let (b, run, o) =
        parse_loop-fits f line t (omega (arith, next_shorter line s.rest s.i n)) small
          (IsRest-advanced line s n) (omega arith) (omega arith) in
      (
        b,
        rw (round-again line s n (omega arith) (omega arith)) run,
        Outcome-advanced line s n b small o,
      )
]

-- A line that does not fit is refused, and `argc` is left alone.
pub parse_loop-refuses :
    (f : ℕ) (line : List ℕ) (s : Cursor)
    → length s.rest < f
    → IsRest line s.rest s.i
    → s.argc ≤ args_max
    → s.w ≤ storage_bytes
    → (args_max < s.argc + length (words s.rest)) ⊎ (storage_bytes < s.w + size (words s.rest))
    → (c : Code) × (b : Args) × (parse_loop f s ≡ some (c, b))
      × (c ≢ parsed)
      × (b.argc ≡ s.args.argc)
unfolding parse_loop
parse_loop-refuses zero line s hf place hc hw big = absurd (omega arith)
parse_loop-refuses (suc f) line s hf place hc hw big = elim (next_cases line s.rest s.i place) [
  | inl e ↦ let none_left : words s.rest ≡ [] = no_words s.rest s.i e in absurd (ground arith)
  | inr n ↦
      let t = advanced line s n in
      let x = take_word (n.char ∷ n.more) in
      let split = next_split line s.rest s.i n in
      let args : length (words s.rest) ≡ suc (length (words t.rest)) = ap length split in
      let bytes : size (words s.rest) ≡ length x + 1 + size (words t.rest) = ap size split in
      elim (Bool-cases (leb args_max s.argc)) [
        | inl full ↦ (
          too_many,
          s.args,
          rw (round_many line s n (ground arith)) refl,
          λ e. ground arith,
          refl,
        )
        | inr free ↦ elim (Bool-cases (leb storage_bytes (s.w + length x))) [
          | inl long ↦
              let (a, r, same) = round_overflow line s n (ground arith) (ground arith) in
              (overflow, a, rw r refl, λ e. ground arith, same)
          | inr short ↦
              let (c, b, run, bad, same) =
                parse_loop-refuses f line t (omega (arith, next_shorter line s.rest s.i n))
                  (IsRest-advanced line s n) (ground arith) (ground arith) (ground arith) in
              (c, b, rw (round-again line s n (ground arith) (ground arith)) run, bad, same)
        ]
      ]
]
