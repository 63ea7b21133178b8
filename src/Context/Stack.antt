-- ===== src/Context/Stack.antt =====
-- Calls of src/misc/context.c act on a stack of at most 32 contexts.
use eyn_os.Base.{
  ℕ, ◌≤◌, ◌≡◌, ◌∙◌, refl, ap, true, false, Option, none, some, List, [], ◌∷◌, length, leb, ltb,
  if◌then◌else◌, update, update_self, update_ne, arith, inl, inr, Bool-cases,
}
use eyn_os.Context.{CommandContext, Contexts, stack_max, push, pop, clear, set, get}

-- The contexts of a list stand in the slots, the last one in slot 0.
abbrev pub Stand : (ℕ → CommandContext) → List CommandContext → Type 0
Stand stack [] = Unit {0}
Stand stack (x ∷ xs) = (stack (length xs) ≡ x) × Stand stack xs

-- The slot of the first context of a list.
abbrev pub top_slot : List CommandContext → Option ℕ
top_slot [] = none
top_slot (x ∷ xs) = some (length xs)

-- The state holds the contexts `xs`, the current one first.
pub record Holds (s : Contexts) (xs : List CommandContext) : Type 0 where
  pub depth : s.depth ≡ length xs
  pub room : length xs ≤ stack_max
  pub stand : Stand s.stack xs
  pub current : s.current ≡ top_slot xs

pub data Op : Type 0 where
  pushes : CommandContext → Op
  sets : Option CommandContext → Op
  pops : Op
  clears : Op

unfoldable pub step : Op → Contexts → Contexts
step (pushes ctx) s = (push ctx s).1
step (sets ctx) s = set ctx s
step pops s = pop s
step clears s = clear s

unfoldable pub run : List Op → Contexts → Contexts
run [] s = s
run (o ∷ os) s = run os (step o s)

-- A full stack keeps what it has.
abbrev pub pushed : CommandContext → List CommandContext → List CommandContext
pushed ctx xs = if leb stack_max (length xs) then xs else ctx ∷ xs

abbrev pub rest : List CommandContext → List CommandContext
rest [] = []
rest (x ∷ xs) = xs

abbrev pub list_step : Op → List CommandContext → List CommandContext
list_step (pushes ctx) xs = pushed ctx xs
list_step (sets none) xs = []
list_step (sets (some ctx)) xs = pushed ctx xs
list_step pops xs = rest xs
list_step clears xs = []

abbrev pub list_run : List Op → List CommandContext → List CommandContext
list_run [] xs = xs
list_run (o ∷ os) xs = list_run os (list_step o xs)

abbrev pub top : List CommandContext → Option CommandContext
top [] = none
top (x ∷ xs) = some x

Stand-update :
    (stack : ℕ → CommandContext) (n : ℕ) (ctx : CommandContext) (xs : List CommandContext)
    → length xs ≤ n
    → Stand stack xs
    → Stand (update stack n ctx) xs
Stand-update stack n ctx [] h st = tt
Stand-update stack n ctx (x ∷ xs) h (here, more) = (
  update_ne stack n (length xs) ctx (λ e. omega arith) ∙ here,
  Stand-update stack n ctx xs (omega arith) more,
)

module _ (s : Contexts) (xs : List CommandContext) (h : Holds s xs) where
  push-Holds : (ctx : CommandContext) → Holds (push ctx s).1 (pushed ctx xs)
  unfolding push
  push-Holds ctx = elim (Bool-cases (leb stack_max (length xs))) [
    | inl full ↦
        let stops : leb stack_max s.depth ≡ true = ground (arith, h.depth) in simp (stops, full) h
    | inr free ↦
        let goes : leb stack_max s.depth ≡ false = ground (arith, h.depth) in
        simp (goes, free)
          (record {
            depth = omega (arith, h.depth);
            room = ground arith;
            stand = (
              rw h.depth (update_self s.stack (length xs) ctx),
              Stand-update s.stack s.depth ctx xs (omega (arith, h.depth)) h.stand,
            );
            current = ap some h.depth;
          })
  ]

  clear-Holds : Holds (clear s) []
  unfolding clear
  clear-Holds = record { depth = refl; room = omega arith; stand = tt; current = refl }

pop-Holds : (s : Contexts) (xs : List CommandContext) → Holds s xs → Holds (pop s) (rest xs)
unfolding pop
pop-Holds s [] h =
    let empty : ltb 0 s.depth ≡ false = ground (arith, h.depth) in
    record {
      depth = ground (arith, h.depth);
      room = omega arith;
      stand = tt;
      current = ground (arith, h.depth);
    }
pop-Holds s (x ∷ []) h = record {
  depth = ground (arith, h.depth);
  room = omega arith;
  stand = tt;
  current = ground (arith, h.depth);
}
pop-Holds s (x ∷ y ∷ ys) h = record {
  depth = ground (arith, h.depth);
  room = omega (arith, h.room);
  stand = h.stand.1;
  current = ground (arith, h.depth);
}

step-Holds :
    (o : Op) (s : Contexts) (xs : List CommandContext)
    → Holds s xs
    → Holds (step o s) (list_step o xs)
unfolding step
step-Holds (pushes ctx) s xs h = push-Holds s xs h ctx
step-Holds (sets none) s xs h = clear-Holds s xs h
step-Holds (sets (some ctx)) s xs h = push-Holds s xs h ctx
step-Holds pops s xs h = pop-Holds s xs h
step-Holds clears s xs h = clear-Holds s xs h

get-top : (s : Contexts) (xs : List CommandContext) → Holds s xs → get s ≡ top xs
unfolding get
get-top s [] h = rw h.current refl
get-top s (x ∷ xs) h = rw h.current (ap some h.stand.0)

-- After any calls the state holds the stack that the calls describe, and the current context is its
-- top.
pub run-Stack :
    (os : List Op) (s : Contexts) (xs : List CommandContext)
    → Holds s xs
    → Holds (run os s) (list_run os xs) × (get (run os s) ≡ top (list_run os xs))
unfolding run
run-Stack [] s xs h = (h, get-top s xs h)
run-Stack (o ∷ os) s xs h = run-Stack os (step o s) (list_step o xs) (step-Holds o s xs h)
