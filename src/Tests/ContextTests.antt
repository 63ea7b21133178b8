-- ===== src/Tests/ContextTests.antt =====
-- Contexts pushed and popped in src/misc/context.c.
use eyn_os.Base.{ℕ, ◌≡◌, refl, none, some, List, [], ◌∷◌, arith}
use eyn_os.Context.{CommandContext, Contexts, get}
use eyn_os.Context.Stack.{Op, pushes, pops, sets, Holds, run, run-Stack}

abbrev context : ℕ → CommandContext
context caps = record { caps = caps; wo = 0; det_seq = 0; drive = 0 }

abbrev no_contexts : Contexts
no_contexts = record { stack = λ i. context 0; depth = 0; current = none }

abbrev calls : List Op
calls = pushes (context 1) ∷ sets (some (context 2)) ∷ pops ∷ pushes (context 3) ∷ []

run-Stack_example :
    Holds (run calls no_contexts) (context 3 ∷ context 1 ∷ [])
    × (get (run calls no_contexts) ≡ some (context 3))
run-Stack_example =
    run-Stack calls no_contexts []
      (record { depth = refl; room = omega arith; stand = tt; current = refl })
