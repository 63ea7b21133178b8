-- ===== src/ShellArgs/Next.antt =====
-- One round of the outer loop of src/utilities/shell/shell_args.c.
use eyn_os.Base.{
  ℕ, ◌+◌, ◌%◌, ◌^◌, ◌<◌, ◌≤◌, ◌≡◌, ◌⊎◌, ◌∙◌, refl, sym, ap, subst, Bool, true, false, List, [], ◌∷◌,
  inl, inr, length, leb, arith, update, lt→not-leb, Bool-cases,
}
use eyn_os.ShellArgs.{
  Args, Cursor, parsed, too_many, overflow, stop, again, is_ws, skip_ws, copy_word, put_char,
  end_word, note_word, word_round, round, storage_bytes, args_max,
}
use eyn_os.ShellArgs.Words.{
  words, take_word, drop_word, words-take_word, words-skip_ws, length-skip_ws, length-take_word,
  length-drop_word, IsRest, IsRest-skip_ws,
}
use eyn_os.ShellArgs.Scan.{write, copy_word-fits, copy_word-overflow}

-- Where the next word of a line starts.
pub record NextWord (line cs : List ℕ) (i : ℕ) : Type 0 where
  pub char : ℕ
  pub more : List ℕ
  pub at : ℕ
  pub found : skip_ws cs i ≡ (char ∷ more, at)
  pub starts : is_ws char ≡ false
  pub place : IsRest line (char ∷ more) at

skip_ws-head : (cs : List ℕ) (i c : ℕ) (ds : List ℕ) → (skip_ws cs i).0 ≡ c ∷ ds → is_ws c ≡ false
unfolding skip_ws
skip_ws-head [] i c ds e = absurd (ground arith)
skip_ws-head (d ∷ cs) i c ds e = elim (Bool-cases (is_ws d)) [
  | inl h ↦ skip_ws-head cs (i + 1) c ds (ground arith)
  | inr h ↦ ground arith
]

pub next_cases :
    (line cs : List ℕ) (i : ℕ) → IsRest line cs i → ((skip_ws cs i).0 ≡ []) ⊎ NextWord line cs i
next_cases line cs i h = go (skip_ws cs i) refl
  where
    go : (r : List ℕ × ℕ) → skip_ws cs i ≡ r → ((skip_ws cs i).0 ≡ []) ⊎ NextWord line cs i
    go ([], j) e = inl (ap (λ (p : List ℕ × ℕ). p.0) e)
    go (c ∷ ds, j) e = inr (record {
      char = c;
      more = ds;
      at = j;
      found = e;
      starts = skip_ws-head cs i c ds (ap (λ (p : List ℕ × ℕ). p.0) e);
      place =
          let r = IsRest-skip_ws line cs i h in subst (λ (p : List ℕ × ℕ). IsRest line p.0 p.1) e r;
    })

module _ (line cs : List ℕ) (i : ℕ) (n : NextWord line cs i) where
  pub next_split : words cs ≡ take_word (n.char ∷ n.more) ∷ words (drop_word (n.char ∷ n.more))
  next_split =
      sym (words-skip_ws cs i)
      ∙ ap (λ (p : List ℕ × ℕ). words p.0) n.found
      ∙ words-take_word n.char n.more n.starts

  -- What is behind the next word is shorter.
  pub next_shorter : length (drop_word (n.char ∷ n.more)) < length cs
  next_shorter =
      let found : length (skip_ws cs i).0 ≡ length (n.char ∷ n.more) =
        ap (λ (p : List ℕ × ℕ). length p.0) n.found in
      omega (
        arith,
        found,
        length-skip_ws cs i,
        length-drop_word (n.char ∷ n.more),
        length-take_word n.char n.more n.starts,
      )

word_round_nil :
    (r : List ℕ × ℕ) (s : Cursor)
    → r.0 ≡ []
    → word_round r s ≡ stop parsed (record (s.args) { argc = s.argc })
word_round_nil ([], j) s e = refl
word_round_nil (c ∷ cs, j) s e = absurd (ground arith)

end_word-false : (r : Bool × Cursor) → r.0 ≡ false → end_word r ≡ stop overflow r.1.args
end_word-false (false, s) e = refl
end_word-false (true, s) e = absurd (ground arith)

-- Copying does not touch `argc`.
copy_word-argc : (cs : List ℕ) (s : Cursor) → (copy_word cs s).1.args.argc ≡ s.args.argc
unfolding copy_word
copy_word-argc [] s = refl
copy_word-argc (c ∷ cs) s = ground (arith, copy_word-argc cs (put_char c s))

pub round_end :
    (s : Cursor)
    → (skip_ws s.rest s.i).0 ≡ []
    → round s ≡ stop parsed (record (s.args) { argc = s.argc })
unfolding round
round_end s e = word_round_nil (skip_ws s.rest s.i) s e

-- The parser behind the next word, with its NUL written.
abbrev pub advanced : (line : List ℕ) (s : Cursor) → NextWord line s.rest s.i → Cursor
advanced line s n =
    let x = take_word (n.char ∷ n.more) in
    record {
      rest = drop_word (n.char ∷ n.more);
      i = n.at + length x;
      w = s.w + length x + 1;
      argc = s.argc + 1;
      args = record (s.args) {
        raw_offs = update s.args.raw_offs s.argc (n.at % 2 ^ 16);
        argv = update s.args.argv s.argc s.w;
        storage = update (write s.args.storage s.w x) (s.w + length x) 0;
      };
    }

module _ (line : List ℕ) (s : Cursor) (n : NextWord line s.rest s.i) where
  pub round-again :
      s.argc < args_max
      → s.w + length (take_word (n.char ∷ n.more)) < storage_bytes
      → round s ≡ again (advanced line s n)
  unfolding round
  round-again hc hw =
      let x = take_word (n.char ∷ n.more) in
      let s1 = record s { i = n.at } in
      rw (n.found, word_round, lt→not-leb s.argc args_max hc)
        (rw
          (
            copy_word-fits (n.char ∷ n.more) (record s1 { args = note_word s1 }) (n.at + length x)
                (s.w + length x) refl refl hw,
            end_word,
            lt→not-leb (s.w + length x) storage_bytes hw,
          )
          refl)

  pub round_overflow :
      s.argc < args_max
      → storage_bytes ≤ s.w + length (take_word (n.char ∷ n.more))
      → (a : Args) × (round s ≡ stop overflow a) × (a.argc ≡ s.args.argc)
  unfolding round
  round_overflow hc hw =
      let s1 = record s { i = n.at } in
      let s2 = record s1 { args = note_word s1 } in
      let r = copy_word (n.char ∷ n.more) s2 in
      (
        r.1.args,
        rw (n.found, word_round, lt→not-leb s.argc args_max hc)
            (end_word-false r (copy_word-overflow n.char n.more s2 n.starts hw)),
        copy_word-argc (n.char ∷ n.more) s2,
      )

  pub round_many : args_max ≤ s.argc → round s ≡ stop too_many s.args
  unfolding round
  round_many hc =
      let full : leb args_max s.argc ≡ true = ground arith in rw (n.found, word_round, full) refl
