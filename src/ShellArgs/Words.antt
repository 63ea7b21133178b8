-- ===== src/ShellArgs/Words.antt =====
-- What the words of a line are, apart from how src/utilities/shell/shell_args.c finds them.
use native.Mathlib.Numerals.{add-one}
use eyn_os.Base.{
  ℕ, zero, suc, ◌+◌, ◌<◌, ◌≤◌, ◌≡◌, ◌∙◌, refl, sym, ap, Bool, true, false, List, [], ◌∷◌, inl, inr,
  length, if◌then◌else◌, arith, Bool-cases,
}
use eyn_os.ShellArgs.{is_ws, drop, skip_ws}

-- Does the line stop or go on with a blank?
abbrev pub ends_here : List ℕ → Bool
ends_here [] = true
ends_here (c ∷ cs) = is_ws c

-- `c` before the first of some words.
abbrev pub prepend : ℕ → List (List ℕ) → List (List ℕ)
prepend c [] = (c ∷ []) ∷ []
prepend c (x ∷ xs) = (c ∷ x) ∷ xs

-- The maximal runs of characters that are no blanks.
unfoldable pub words : List ℕ → List (List ℕ)
words [] = []
words (c ∷ cs) =
    if is_ws c then words cs else if ends_here cs then (c ∷ []) ∷ words cs else prepend c (words cs)

-- The bytes that some words take, each with its NUL.
abbrev pub size : List (List ℕ) → ℕ
size [] = 0
size (x ∷ xs) = length x + 1 + size xs

unfoldable pub take_word : List ℕ → List ℕ
take_word [] = []
take_word (c ∷ cs) = if is_ws c then [] else c ∷ take_word cs

unfoldable pub drop_word : List ℕ → List ℕ
drop_word [] = []
drop_word (c ∷ cs) = if is_ws c then c ∷ cs else drop_word cs

pub words-take_word :
    (c : ℕ) (cs : List ℕ)
    → is_ws c ≡ false
    → words (c ∷ cs) ≡ take_word (c ∷ cs) ∷ words (drop_word (c ∷ cs))
unfolding words take_word drop_word
words-take_word c [] h = rw h refl
words-take_word c (d ∷ ds) h = elim (Bool-cases (is_ws d)) [
  | inl e ↦ ground arith
  | inr e ↦ ground (arith, words-take_word d ds e)
]

pub words-skip_ws : (cs : List ℕ) (i : ℕ) → words (skip_ws cs i).0 ≡ words cs
unfolding words skip_ws
words-skip_ws [] i = refl
words-skip_ws (c ∷ cs) i = elim (Bool-cases (is_ws c)) [
  | inl e ↦ rw e (words-skip_ws cs (i + 1))
  | inr e ↦ ground arith
]

pub length-skip_ws : (cs : List ℕ) (i : ℕ) → length (skip_ws cs i).0 ≤ length cs
unfolding skip_ws
length-skip_ws [] i = omega arith
length-skip_ws (c ∷ cs) i = ground (arith, length-skip_ws cs (i + 1))

pub length-take_word : (c : ℕ) (cs : List ℕ) → is_ws c ≡ false → 0 < length (take_word (c ∷ cs))
unfolding take_word
length-take_word c cs h = ground arith

-- A line of blanks has no words.
pub no_words : (cs : List ℕ) (i : ℕ) → (skip_ws cs i).0 ≡ [] → words cs ≡ []
unfolding words
no_words cs i e = sym (words-skip_ws cs i) ∙ ap words e

pub length-drop_word : (cs : List ℕ) → length (take_word cs) + length (drop_word cs) ≡ length cs
unfolding take_word drop_word
length-drop_word [] = refl
length-drop_word (c ∷ cs) = ground (arith, length-drop_word cs)

-- `cs` is the line from index `i` on.
pub record IsRest (line cs : List ℕ) (i : ℕ) : Type 0 where
  pub rest : drop i line ≡ cs
  pub index : i + length cs ≡ length line

drop_next : (i c : ℕ) (line cs : List ℕ) → drop i line ≡ c ∷ cs → drop (suc i) line ≡ cs
unfolding drop
drop_next zero c [] cs e = absurd (ground arith)
drop_next (suc i) c [] cs e = absurd (ground arith)
drop_next zero c (x ∷ line) cs e = ground (arith, e)
drop_next (suc i) c (x ∷ line) cs e = drop_next i c line cs e

pub IsRest-next : (line cs : List ℕ) (i c : ℕ) → IsRest line (c ∷ cs) i → IsRest line cs (i + 1)
IsRest-next line cs i c h = record {
  rest = rw (add-one i) (drop_next i c line cs h.rest);
  index = omega (arith, h.index);
}

pub IsRest-skip_ws :
    (line cs : List ℕ) (i : ℕ) → IsRest line cs i → IsRest line (skip_ws cs i).0 (skip_ws cs i).1
unfolding skip_ws
IsRest-skip_ws line [] i h = h
IsRest-skip_ws line (c ∷ cs) i h = elim (Bool-cases (is_ws c)) [
  | inl e ↦ rw e (IsRest-skip_ws line cs (i + 1) (IsRest-next line cs i c h))
  | inr e ↦ rw e h
]

pub IsRest-drop_word :
    (line cs : List ℕ) (i j : ℕ)
    → IsRest line cs i
    → i + length (take_word cs) ≡ j
    → IsRest line (drop_word cs) j
unfolding take_word drop_word
IsRest-drop_word line [] i j h e = let same : i ≡ j = omega arith in rw (← same) h
IsRest-drop_word line (c ∷ cs) i j h e = elim (Bool-cases (is_ws c)) [
  | inl b ↦ let same : i ≡ j = ground arith in rw (← same) (rw b h)
  | inr b ↦ rw b (IsRest-drop_word line cs (i + 1) j (IsRest-next line cs i c h) (ground arith))
]
