-- ===== src/Proc.antt =====
-- src/proc.c, src/syscall.c and the end of IRQ_generic_isr of src/arch/x86_64/interrupts.c: the
-- ready queue, blocking and waking, and the switch of processes. A process is its address; a queue
-- is the sequence of processes that its list holds, which `LinkedList.Ops` shows that the linked
-- lists implement.
-- Of the registers that a switch saves and loads, the model has the interrupt flag; the others are in `Context`. The acknowledgement of an interrupt is
-- `Interrupts.irq_end_of_interrupt`.
pub mod Schedule
pub mod Places
pub mod System
pub mod Steps
pub mod Wakes
pub mod Once
mod Tests
use marimba.Interrupts.{IrqState, irq_disable, irq_enable}
use marimba.Base.{
  ℕ, zero, suc, ◌+◌, ◌-◌, ◌*◌, ◌/◌, ◌%◌, ◌^◌, ◌≤◌, ◌<◌, ◌≡◌, ◌≢◌, refl, sym, ap, ◌∙◌, ◌⊎◌, inl, inr,
  Bool, true, false, not, ◌&&◌, ◌||◌, Option, none, some, List, [], ◌∷◌, ◌++◌, map, append_assoc,
  append-nil, arith, ltb, leb, ◌==◌, ==_iff, if◌then◌else◌, Bool-cases, length, length-append,
  length-set, get_or, set, has, bit_and, bit_or,
}

abbrev pub null : ℕ
null = 0

-- The address of `main_proc`, which is no process that PROC_create_process makes.
abbrev pub main_proc : ℕ
main_proc = 1

abbrev pub syscall_trap_number : ℕ
syscall_trap_number = 123

-- `flags`: whether the flags that each process has saved accept interrupts.
pub record ProcState : Type 0 where
  pub ready_queue : List ℕ
  pub procs : List ℕ
  pub sleep_curr : Bool
  pub curr_proc : ℕ
  pub next_proc : ℕ
  pub irq : IrqState
  pub flags : ℕ → Bool

abbrev pub is_nil : List ℕ → Bool
is_nil [] = true
is_nil (p ∷ ps) = false

-- The part of PROC_reschedule that picks the next process.
unfoldable pub pick_next : List ℕ → ProcState → ProcState
pick_next [] s = record s { ready_queue = []; next_proc = main_proc; sleep_curr = true }
pick_next (p ∷ ps) s = record s { ready_queue = ps; next_proc = p; sleep_curr = false }

-- The ready queue with the current process at its end, unless it sleeps or is gone.
abbrev pub with_current : ProcState → List ℕ
with_current s =
    if not (s.curr_proc == null) && not s.sleep_curr
    then s.ready_queue ++ s.curr_proc ∷ []
    else s.ready_queue

-- The last test of PROC_reschedule.
unfoldable pub settle : ProcState → ProcState
unfolding irq_enable
settle s = if s.curr_proc == s.next_proc then record s { irq = irq_enable s.irq } else s

unfoldable pub reschedule : ProcState → ProcState
unfolding pick_next irq_disable settle
reschedule s = settle (pick_next (with_current s) (record s { irq = irq_disable s.irq }))

-- `atomic_add` and `atomic_sub` of one on the semaphore.
abbrev pub atomic_add : IrqState → IrqState
atomic_add i = record i { semaphore = i.semaphore + 1 }

abbrev pub atomic_sub : IrqState → IrqState
atomic_sub i = record i { semaphore = i.semaphore - 1 }

abbrev pub save_flags : ℕ → Bool → (ℕ → Bool) → ℕ → Bool
save_flags proc pushed flags p = if p == proc then pushed else flags p

-- PROC_save_context, unless the current process is gone: the flags from the interrupt's stack.
abbrev pub saved : Bool → ProcState → ℕ → Bool
saved pushed s = if s.curr_proc == null then s.flags else save_flags s.curr_proc pushed s.flags

-- The switch at the end of an interrupt, with the flags that the interrupted process pushed: those that the
-- stack has then, which iretq loads, and the state.
unfoldable pub switch_context : Bool → ProcState → Bool × ProcState
unfolding irq_enable
switch_context pushed s =
    let flags = saved pushed s in
    if s.curr_proc == s.next_proc then (pushed, s) else (
      flags s.next_proc,
      record s { curr_proc = s.next_proc; flags = flags; irq = irq_enable s.irq },
    )

-- IRQ_generic_isr, with what the handler table has for `irq`, less the acknowledgement, between the entry of the
-- interrupt, which pushes the flags and turns interrupts off, and its iretq.
unfoldable pub irq_generic_isr : ℕ → (ProcState → ProcState) → ProcState → ProcState
unfolding switch_context
irq_generic_isr irq handler s =
    let off : IrqState = record s.irq { accepting = false } in
    let s1 = record s { irq = if irq == syscall_trap_number then off else atomic_add off } in
    let (pushed, s2) = switch_context s.irq.accepting (handler s1) in
    let after : IrqState = if irq == syscall_trap_number then s2.irq else atomic_sub s2.irq in
    record s2 { irq = record after { accepting = pushed } }

-- The trap that `yield` raises: system call 0.
unfoldable pub yield : ProcState → ProcState
unfolding irq_generic_isr reschedule
yield = irq_generic_isr syscall_trap_number reschedule

-- LL_del of a process on the list of all.
unfoldable pub remove : ℕ → List ℕ → List ℕ
remove p [] = []
remove p (q ∷ qs) = if p == q then qs else q ∷ remove p qs

-- process_exit, less the memory that it gives back.
unfoldable pub process_exit : ProcState → ProcState
process_exit s = yield (record s { procs = remove s.curr_proc s.procs; curr_proc = null })

unfoldable pub syscall_handler : ℕ → ProcState → ProcState
unfolding reschedule process_exit
syscall_handler num s = if num == 0 then reschedule s else if num == 1 then process_exit s else s

-- PROC_block_on, with the queue that it blocks on before and after.
unfoldable pub block_on : Bool → List ℕ → ProcState → List ℕ × ProcState
unfolding irq_enable
block_on enable_ints queue s =
    let asleep = record s { sleep_curr = true } in
    (
      queue ++ s.curr_proc ∷ [],
      yield (if enable_ints then record asleep { irq = irq_enable asleep.irq } else asleep),
    )

unfoldable pub unblock_head : List ℕ → ProcState → List ℕ × ProcState
unfolding irq_disable irq_enable
unblock_head [] s = ([], s)
unblock_head (p ∷ ps) s =
    (ps, record s { ready_queue = s.ready_queue ++ p ∷ []; irq = irq_enable (irq_disable s.irq) })

-- The loop of PROC_unblock_all.
unfoldable pub move_all : List ℕ → List ℕ → List ℕ
move_all [] ready = ready
move_all (p ∷ ps) ready = move_all ps (ready ++ p ∷ [])

unfoldable pub unblock_all : List ℕ → ProcState → List ℕ × ProcState
unfolding move_all irq_disable irq_enable
unblock_all queue s = (
  [],
  record s { ready_queue = move_all queue s.ready_queue; irq = irq_enable (irq_disable s.irq) },
)

-- PROC_create_process, with the process that kmalloc and the stack that MMU_alloc_stack return:
-- whether it started, and the state. The flags of the new process are 0.
unfoldable pub create_process : (new stack : ℕ) → ProcState → Bool × ProcState
create_process new stack s = if new == null || stack == null then (false, s) else (
  true,
  record s {
    ready_queue = s.ready_queue ++ new ∷ [];
    procs = s.procs ++ new ∷ [];
    flags = save_flags new false s.flags;
  },
)

-- One round of PROC_run: whether it goes on, and the state when the main process runs again next. It
-- stops when no process is ready.
unfoldable pub proc_run_round : ProcState → Bool × ProcState
unfolding irq_disable irq_enable
proc_run_round s =
    let off = irq_disable s.irq in
    if is_nil s.ready_queue
    then (false, record s { irq = irq_enable off })
    else (true, yield (record s { sleep_curr = true; irq = irq_enable off }))
