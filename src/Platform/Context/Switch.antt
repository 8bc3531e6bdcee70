-- ===== src/Platform/Context/Switch.antt =====
-- switch.S: saving and loading a context, and the first instructions of a new one.
use green_threads.Base.{ℕ, ◌+◌, ◌-◌, ◌%◌, ◌==◌, if◌then◌else◌}
use green_threads.Word.{word_mod}
use green_threads.Platform.Context.{Context, store}

-- The registers that the routines touch.
pub record Cpu : Type 0 where
  pub callee_saved : Context
  pub rax : ℕ
  pub rdi : ℕ
  pub rip : ℕ

abbrev pub rsp_of : Cpu → ℕ
rsp_of cpu = cpu.callee_saved.rsp

abbrev pub move_rsp : Cpu → ℕ → Cpu
move_rsp cpu sp = record cpu { callee_saved = record (cpu.callee_saved) { rsp = sp } }

-- `ret`: the return address is popped into the instruction pointer.
abbrev pub ret : (ℕ → ℕ) → Cpu → Cpu
ret memory cpu = record (move_rsp cpu ((rsp_of cpu + 8) % word_mod)) { rip = memory (rsp_of cpu) }

-- The offsets of the registers in a context, GT_CONTEXT_RSP_OFFSET and its like.
abbrev rsp_offset : ℕ
rsp_offset = 0

abbrev rbx_offset : ℕ
rbx_offset = 8

abbrev rbp_offset : ℕ
rbp_offset = 16

abbrev r12_offset : ℕ
r12_offset = 24

abbrev r13_offset : ℕ
r13_offset = 32

abbrev r14_offset : ℕ
r14_offset = 40

abbrev r15_offset : ℕ
r15_offset = 48

-- The word at `offset` of a context; its seven words are its fields in their order.
abbrev word_at : Context → (offset : ℕ) → ℕ
word_at ctx offset =
    if offset == 0
    then ctx.rsp
    else if offset == 8
    then ctx.rbx
    else if offset == 16
    then ctx.rbp
    else if offset == 24
    then ctx.r12
    else if offset == 32
    then ctx.r13
    else if offset == 40
    then ctx.r14
    else ctx.r15

abbrev put_word : Context → (offset value : ℕ) → Context
put_word ctx offset value =
    if offset == 0
    then record ctx { rsp = value }
    else if offset == 8
    then record ctx { rbx = value }
    else if offset == 16
    then record ctx { rbp = value }
    else if offset == 24
    then record ctx { r12 = value }
    else if offset == 32
    then record ctx { r13 = value }
    else if offset == 40
    then record ctx { r14 = value }
    else record ctx { r15 = value }

-- The seven stores of `__gt_context_save_asm`, into a context that was `ctx`.
abbrev pub store_registers : (regs ctx : Context) → Context
store_registers regs ctx =
    let ctx = put_word ctx rsp_offset regs.rsp in
    let ctx = put_word ctx rbx_offset regs.rbx in
    let ctx = put_word ctx rbp_offset regs.rbp in
    let ctx = put_word ctx r12_offset regs.r12 in
    let ctx = put_word ctx r13_offset regs.r13 in
    let ctx = put_word ctx r14_offset regs.r14 in put_word ctx r15_offset regs.r15

-- The seven loads of `__gt_context_load_asm`, into registers that were `regs`.
abbrev pub load_registers : (ctx regs : Context) → Context
load_registers ctx regs =
    let regs = record regs { rsp = word_at ctx rsp_offset } in
    let regs = record regs { rbx = word_at ctx rbx_offset } in
    let regs = record regs { rbp = word_at ctx rbp_offset } in
    let regs = record regs { r12 = word_at ctx r12_offset } in
    let regs = record regs { r13 = word_at ctx r13_offset } in
    let regs = record regs { r14 = word_at ctx r14_offset } in
    record regs { r15 = word_at ctx r15_offset }

-- `__gt_context_save_asm`: the context that it stores, in the place of `ctx`, and the registers after
-- it returned.
unfoldable pub context_save : (ℕ → ℕ) → (ctx : Context) → Cpu → Context × Cpu
context_save memory ctx cpu =
    (store_registers cpu.callee_saved ctx, ret memory (record cpu { rax = 0 }))

-- `__gt_context_load_asm`.
unfoldable pub context_load : (ℕ → ℕ) → Context → Cpu → Cpu
context_load memory next cpu =
    ret memory (record cpu { callee_saved = load_registers next cpu.callee_saved; rax = 1 })

-- `gt_context_start` up to the call; `behind` is the address of the instruction behind the call.
unfoldable pub context_start : (ℕ → ℕ) → (behind : ℕ) → Cpu → Cpu × (ℕ → ℕ)
context_start memory behind cpu =
    let entry = memory (rsp_of cpu) in
    let sp = (rsp_of cpu + 8) % word_mod in
    let arg = memory sp in
    let sp' = (sp + 8) % word_mod in
    let top = (sp' + word_mod - 8) % word_mod in
    (record (move_rsp cpu top) { rax = entry; rdi = arg; rip = entry }, store memory top behind)
