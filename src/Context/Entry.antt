-- ===== src/Context/Entry.antt =====
-- How a process that PROC_create_process of src/proc.c made is entered by PROC_load_context.
use marimba.Base.{true, ℕ, ◌-◌, ◌/◌, ◌%◌, ◌^◌, ◌≤◌, ◌≡◌, refl, arith, ◌==◌}
use marimba.Context.{Stack, load_context, new_process, new_stack}

-- A process that was created is loaded onto the words of an interrupted one whose code segment is 0x10: it starts at
-- its entry point with its argument, in the code segment 0x10, with the address of process_exit on top of its stack,
-- to which it returns; and with bit 9 of its flags clear, so that the processor accepts no interrupt.
pub load_context-new_process :
    (stack entry_point arg process_exit : ℕ) (m : ℕ → ℕ) (interrupted : Stack)
    → 16 ≤ stack
    → interrupted 11 ≡ 0x10
    → let (loaded, processor) = load_context (new_process stack entry_point arg) interrupted in
      (loaded 10 ≡ entry_point)
      × (loaded 9 ≡ arg)
      × (loaded 11 ≡ 0x10)
      × (new_stack stack process_exit m (loaded 13) ≡ process_exit)
      × (loaded 12 / 2 ^ 9 % 2 ≡ 0)
unfolding load_context new_process new_stack
load_context-new_process stack entry_point arg process_exit m interrupted room segment =
    let top : (stack - 16 == stack - 16) ≡ true = ground arith in
    (refl, refl, rw segment refl, rw top refl, refl)
