-- ===== src/ShellArgs.antt =====
-- Command-line parsing of src/utilities/shell/shell_args.c. A line is the list of its characters
-- before the NUL (NULL is the empty line); a pointer into `storage` is an offset.
pub mod Words
pub mod Scan
pub mod Next
pub mod Parse
pub mod Line
use eyn_os.Base.{
  ℕ, zero, suc, ◌+◌, ◌%◌, ◌^◌, Bool, true, false, not, ◌||◌, Option, none, some, List, [], ◌∷◌, leb,
  length, ◌==◌, if◌then◌else◌, update,
}

abbrev pub args_max : ℕ
args_max = 32

abbrev pub storage_bytes : ℕ
storage_bytes = 512

-- `shell_args_t`.
pub record Args : Type 0 where
  pub raw : List ℕ
  pub raw_len : ℕ
  pub argc : ℕ
  pub argv : ℕ → ℕ
  pub raw_offs : ℕ → ℕ
  pub storage : ℕ → ℕ

-- The results 0, -2 and -3.
pub data Code : Type 0 where
  parsed : Code
  too_many : Code
  overflow : Code

unfoldable pub is_ws : ℕ → Bool
is_ws c = (c == 32) || (c == 9) || (c == 13) || (c == 10)

-- The loop over blanks: what is left of the line, and its index.
unfoldable pub skip_ws : List ℕ → ℕ → List ℕ × ℕ
skip_ws [] i = ([], i)
skip_ws (c ∷ cs) i = if is_ws c then skip_ws cs (i + 1) else (c ∷ cs, i)

-- The local variables of the parser: what is left of the line, its index `i`, the write index `w`
-- and `argc`, beside the structure it fills.
pub record Cursor : Type 0 where
  pub rest : List ℕ
  pub i : ℕ
  pub w : ℕ
  pub argc : ℕ
  pub args : Args

abbrev pub put_char : ℕ → Cursor → Cursor
put_char c s = record s {
  i = s.i + 1;
  w = s.w + 1;
  args = record (s.args) { storage = update s.args.storage s.w c };
}

-- The loop that copies a word; false if the storage is full.
unfoldable pub copy_word : List ℕ → Cursor → Bool × Cursor
copy_word [] s = (true, record s { rest = [] })
copy_word (c ∷ cs) s =
    if is_ws c
    then (true, record s { rest = c ∷ cs })
    else if leb storage_bytes (s.w + 1)
    then (false, record s { rest = c ∷ cs })
    else copy_word cs (put_char c s)

-- How a round of the outer loop ends.
pub data Round : Type 0 where
  stop : Code → Args → Round
  again : Cursor → Round

abbrev pub end_word : Bool × Cursor → Round
end_word (false, s) = stop overflow s.args
end_word (true, s) =
    if leb storage_bytes s.w
    then stop overflow s.args
    else again (record s {
      w = s.w + 1;
      argc = s.argc + 1;
      args = record (s.args) { storage = update s.args.storage s.w 0 };
    })

-- The offset of the word in the line, in 16 bits, and its place in the storage.
abbrev pub note_word : Cursor → Args
note_word s = record (s.args) {
  raw_offs = update s.args.raw_offs s.argc (s.i % 2 ^ 16);
  argv = update s.args.argv s.argc s.w;
}

abbrev pub word_round : List ℕ × ℕ → Cursor → Round
word_round ([], j) s = stop parsed (record (s.args) { argc = s.argc })
word_round (c ∷ cs, j) s =
    if leb args_max s.argc
    then stop too_many s.args
    else let s1 = record s { i = j } in
      end_word (copy_word (c ∷ cs) (record s1 { args = note_word s1 }))

unfoldable pub round : Cursor → Round
round s = word_round (skip_ws s.rest s.i) s

abbrev pub after_round : Round → (Cursor → Option (Code × Args)) → Option (Code × Args)
after_round (stop c a) next = some (c, a)
after_round (again s) next = next s

unfoldable pub parse_loop : ℕ → Cursor → Option (Code × Args)
parse_loop zero s = none
parse_loop (suc f) s = after_round (round s) (parse_loop f)

abbrev pub blank_args : List ℕ → Args
blank_args line = record {
  raw = line;
  raw_len = length line % 2 ^ 32;
  argc = 0;
  argv = λ k. 0;
  raw_offs = λ k. 0;
  storage = λ k. 0;
}

abbrev pub first_cursor : List ℕ → Cursor
first_cursor line = record { rest = line; i = 0; w = 0; argc = 0; args = blank_args line }

-- The fuel is one more than the length of the line.
unfoldable pub parse : List ℕ → Option (Code × Args)
parse [] = some (parsed, blank_args [])
parse (c ∷ cs) = parse_loop (length (c ∷ cs) + 1) (first_cursor (c ∷ cs))

unfoldable pub drop : ℕ → List ℕ → List ℕ
drop zero xs = xs
drop (suc n) [] = []
drop (suc n) (x ∷ xs) = drop n xs

unfoldable pub rest_raw : Args → ℕ → List ℕ
rest_raw a start =
    if leb a.argc start
    then []
    else if leb a.raw_len (a.raw_offs start)
    then []
    else drop (a.raw_offs start) a.raw
