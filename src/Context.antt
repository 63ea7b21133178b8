-- ===== src/Context.antt =====
-- The stack of command contexts of src/misc/context.c. `depth` is g_ctx_top + 1; the pointer
-- current_command_context is `none` for NULL or the index of the slot that it points at.
pub mod Stack
use eyn_os.Base.{
  ℕ, ◌+◌, ◌-◌, Bool, true, false, Option, none, some, leb, ltb, ◌==◌, if◌then◌else◌, update,
}

abbrev pub stack_max : ℕ
stack_max = 32

-- `command_context_t`.
pub record CommandContext : Type 0 where
  pub caps : ℕ
  pub wo : ℕ
  pub det_seq : ℕ
  pub drive : ℕ

-- `g_ctx_stack`, `g_ctx_top` and `current_command_context`.
pub record Contexts : Type 0 where
  pub stack : ℕ → CommandContext
  pub depth : ℕ
  pub current : Option ℕ

-- Whether the context, which is not NULL, was pushed.
unfoldable pub push : CommandContext → Contexts → Bool × Contexts
push ctx s = if leb stack_max s.depth then (false, s) else (
  true,
  record { stack = update s.stack s.depth ctx; depth = s.depth + 1; current = some s.depth },
)

-- The slot under `depth`, if there is one.
abbrev pub slot_below : ℕ → Option ℕ
slot_below depth = if ltb 0 depth then some (depth - 1) else none

unfoldable pub pop : Contexts → Contexts
pop s =
    let depth = if ltb 0 s.depth then s.depth - 1 else s.depth in
    record s { depth = depth; current = slot_below depth }

unfoldable pub clear : Contexts → Contexts
clear s = record s { depth = 0; current = none }

abbrev pub set : Option CommandContext → Contexts → Contexts
set none s = clear s
set (some ctx) s = (push ctx s).1

-- What the returned pointer points at.
abbrev pub at_slot : (ℕ → CommandContext) → Option ℕ → Option CommandContext
at_slot stack none = none
at_slot stack (some i) = some (stack i)

unfoldable pub get : Contexts → Option CommandContext
get s = at_slot s.stack s.current
