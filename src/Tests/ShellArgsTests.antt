-- ===== src/Tests/ShellArgsTests.antt =====
-- Lines given to src/utilities/shell/shell_args.c.
use eyn_os.Base.{ℕ, zero, suc, ◌≡◌, refl, ◌≢◌, List, [], ◌∷◌, some, inl, length, arith}
use eyn_os.ShellArgs.{Args, Code, parsed, parse, rest_raw, is_ws}
use eyn_os.ShellArgs.Words.{words}
use eyn_os.ShellArgs.Parse.{Parsed}
use eyn_os.ShellArgs.Line.{later, parse-words, parse-refuses, rest_raw-words}

-- "ls  -a ".
abbrev line : List ℕ
line = 108 ∷ 115 ∷ 32 ∷ 32 ∷ 45 ∷ 97 ∷ 32 ∷ []

line-words : words line ≡ (108 ∷ 115 ∷ []) ∷ (45 ∷ 97 ∷ []) ∷ []
unfolding words is_ws
line-words = refl

parse-words_example :
    (b : Args) × (parse line ≡ some (parsed, b))
    × (b.argc ≡ length (words line))
    × Parsed b line 0 (words line)
unfolding words is_ws
parse-words_example = parse-words line (omega arith) (omega arith) (omega arith)

rest_raw-words_example :
    (b : Args) × (parse line ≡ some (parsed, b)) × (words (rest_raw b 1) ≡ later 1 (words line))
unfolding words is_ws
rest_raw-words_example = rest_raw-words line 1 (omega arith) (omega arith) (omega arith)

-- `n` words of one letter.
letters : ℕ → List ℕ
letters zero = []
letters (suc n) = 97 ∷ 32 ∷ letters n

parse-refuses_example :
    (c : Code) × (b : Args) × (parse (letters 33) ≡ some (c, b)) × (c ≢ parsed) × (b.argc ≡ 0)
unfolding letters words is_ws
parse-refuses_example = parse-refuses (letters 33) (inl (omega arith))
