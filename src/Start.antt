-- ===== src/Start.antt =====
-- HW_init of src/arch/x86_64/hw_init.c, with IRQ_x86_64_init of src/arch/x86_64/interrupts.c and init_x86_serial of
-- src/drivers/serial/x86.c: the hardware as the kernel starts. Addresses of functions and of static data are
-- arguments.
pub mod Ready
mod Tests
use marimba.Base.{
  ℕ, zero, suc, ◌+◌, ◌-◌, ◌*◌, ◌/◌, ◌%◌, ◌^◌, ◌≤◌, ◌<◌, ◌≡◌, ◌≢◌, refl, sym, ap, ◌∙◌, ◌⊎◌, inl, inr,
  Bool, true, false, not, ◌&&◌, ◌||◌, List, [], ◌∷◌, arith, ltb, leb, ◌==◌, ==_iff, if◌then◌else◌,
  Bool-cases, bit_and, bit_or,
}
use marimba.Proc.{syscall_trap_number}
use marimba.Io.{History, Reply}
use marimba.Interrupts.{IrqHandler, IrqState, irq_set_handler}
use marimba.Interrupts.Pic.{pic_init}
use marimba.Serial.Ports.{init_x86_serial}
use marimba.Gdt.{Gdt, Tss, init_gdt, init_tss}

-- What HW_init gets from the linker: the TSS, the tops of the four stacks, the two handlers, and the device.
pub record Addresses : Type 0 where
  pub tss : ℕ
  pub stack1 : ℕ
  pub stack2 : ℕ
  pub stack3 : ℕ
  pub stack4 : ℕ
  pub syscall_handler : ℕ
  pub serial_isr : ℕ
  pub gdev : ℕ

pub record Hardware : Type 0 where
  pub io : History
  pub handlers : ℕ → IrqHandler
  pub irq : IrqState
  pub gdt : Gdt
  pub tss : Tss

abbrev pub no_handler : IrqHandler
no_handler = record { handler = 0; arg = 0 }

-- IDT_init, in assembly, points the processor at the entries of isr.asm.
unfoldable pub irq_x86_64_init : Reply → (syscall_handler : ℕ) → Hardware → Hardware
unfolding pic_init irq_set_handler
irq_x86_64_init reply syscall_handler hw = record hw {
  io = pic_init reply hw.io;
  handlers =
      irq_set_handler syscall_trap_number (record { handler = syscall_handler; arg = 0 })
        (λ i. if ltb i 256 then no_handler else hw.handlers i);
  irq = record { semaphore = 0; accepting = true };
}

unfoldable pub hw_init : Reply → Addresses → Hardware → Hardware
unfolding init_gdt irq_x86_64_init init_x86_serial
hw_init reply at hw =
    let hw1 = record hw {
      gdt = init_gdt at.tss;
      tss = init_tss at.stack1 at.stack2 at.stack3 at.stack4;
    } in
    let hw2 = irq_x86_64_init reply at.syscall_handler hw1 in
    let (handlers, io) = init_x86_serial reply at.serial_isr at.gdev hw2.handlers hw2.io in
    record hw2 { handlers = handlers; io = io }
