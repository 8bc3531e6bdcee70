-- ===== src/Platform/Context.antt =====
-- src/platform/context/backend/x86_64: execution contexts (context.c, with the structure of
-- internal/gt_internal/platform/context/context.h) and the switch between them (switch.S). A pointer
-- to a context is an optional context; a call returns the context that it leaves behind.
pub mod Switch
pub mod Laws
use green_threads.Base.{
  ℕ, ◌+◌, ◌-◌, ◌%◌, ◌^◌, Bool, false, not, ◌&&◌, List, ◌==◌, if◌then◌else◌, Option, none, some,
}
use green_threads.Outcome.{ok, fault}
use green_threads.Outcome.Cmd.{Cmd, pure, ◌>>=◌, ◌>>◌, assert}
use green_threads.Word.{word_mod}
use green_threads.Status.{Status, success}
use green_threads.Platform.Interface.{Host, Machine, Event}
use green_threads.Platform.Ledger.{access_at}
use green_threads.Platform.Page.{align_down_pot, is_aligned}

-- The saved registers.
pub record Context : Type 0 where
  pub rsp : ℕ
  pub rbx : ℕ
  pub rbp : ℕ
  pub r12 : ℕ
  pub r13 : ℕ
  pub r14 : ℕ
  pub r15 : ℕ

-- GT_CONTEXT_STACK_ALIGNMENT
abbrev pub stack_alignment : ℕ
stack_alignment = 16

-- `__gt_context_clear`.
abbrev pub cleared : Context
cleared = record { rsp = 0; rbx = 0; rbp = 0; r12 = 0; r13 = 0; r14 = 0; r15 = 0 }

abbrev pub validate_context : Option Context → Cmd Machine Context
validate_context none = do assert false "ctx != NULL"; λ _. fault
validate_context (some ctx) = pure ctx

abbrev pub validate_entry : ℕ → Cmd Machine (Unit {0})
validate_entry entry = assert (not (entry == 0)) "entry != NULL"

unfoldable pub validate_stack : (stack_base stack_size : ℕ) → Cmd Machine (Unit {0})
validate_stack stack_base stack_size = do
  assert (not (stack_base == 0)) "stack_base != NULL"
  assert (not (stack_size == 0)) "stack_size != 0"
  assert (is_aligned stack_base stack_alignment)
      "GT_IS_ALIGNED((uintptr_t)stack_base, GT_CONTEXT_STACK_ALIGNMENT)"
  assert (is_aligned stack_size stack_alignment)
      "GT_IS_ALIGNED(stack_size, GT_CONTEXT_STACK_ALIGNMENT)"

abbrev pub store : (ℕ → ℕ) → ℕ → ℕ → ℕ → ℕ
store memory p v q = if p == q then v else memory q

-- Whether the word at `p`, of 8 bytes, can be written.
abbrev pub is_writable : List Event → ℕ → Bool
is_writable es p = (access_at es p == 3) && (access_at es (p + 7) == 3)

-- `*--(*sp) = value` returns the pointer that it leaves; a word that cannot be written faults.
unfoldable pub stack_push : (sp value : ℕ) → Cmd Machine ℕ
stack_push sp value m =
    let sp' = (sp + word_mod - 8) % word_mod in
    if not (is_writable m.events sp')
    then fault
    else ok (sp', record m { memory = store m.memory sp' value })

unfoldable pub build_initial_frame : Host → Context → (entry arg : ℕ) → Cmd Machine Context
unfolding stack_push
build_initial_frame host ctx entry arg = do
  assert (not (ctx.rsp == 0)) "ctx->rsp != 0"
  sp ← stack_push ctx.rsp arg
  sp ← stack_push sp entry
  sp ← stack_push sp host.context_start
  pure (record ctx { rsp = sp })

-- `gt_context_init`.
unfoldable pub init : Option Context → (stack_base stack_size : ℕ) → Cmd Machine (Status × Context)
unfolding validate_stack
init ctx stack_base stack_size = do
  ctx ← validate_context ctx
  validate_stack stack_base stack_size
  let stack = align_down_pot ((stack_base + stack_size) % word_mod) stack_alignment
  pure (success, record cleared { rsp = stack })

-- `gt_context_configure`.
unfoldable pub configure : Host → Option Context → (entry arg : ℕ) → Cmd Machine (Status × Context)
unfolding build_initial_frame
configure host ctx entry arg = do
  ctx ← validate_context ctx
  validate_entry entry
  ctx ← build_initial_frame host ctx entry arg
  pure (success, ctx)

-- `gt_context_destroy`.
unfoldable pub destroy : Option Context → Cmd Machine Context
destroy ctx = do ctx ← validate_context ctx; pure cleared
