-- ===== src/Start/Tests.antt =====
-- HW_init on interrupt controllers whose data ports show their masks.
use marimba.Base.{false, refl, [], ◌==◌, if◌then◌else◌}
use marimba.Io.{Reply}
use marimba.Interrupts.Controllers.{IsPic, master, slave}
use marimba.Gdt.{zero_entry, zero_tss}
use marimba.Start.{Addresses, Hardware, hw_init}
use marimba.Start.Ready.{IsStarted, hw_init-IsStarted}

abbrev pics : Reply
pics h port = if port == 0x21 then (master h).mask else if port == 0xA1 then (slave h).mask else 0

pics-IsPic : IsPic pics
pics-IsPic = record { master_mask = λ h ready. refl; slave_mask = λ h ready. refl }

abbrev at : Addresses
at = record {
  tss = 0x200000;
  stack1 = 0x201000;
  stack2 = 0x202000;
  stack3 = 0x203000;
  stack4 = 0x204000;
  syscall_handler = 0x100100;
  serial_isr = 0x100200;
  gdev = 0x205000;
}

abbrev before : Hardware
before = record {
  io = [];
  handlers = λ i. record { handler = i; arg = 0 };
  irq = record { semaphore = 7; accepting = false };
  gdt = λ i. zero_entry;
  tss = zero_tss;
}

hw_init-IsStarted_example : IsStarted pics at before (hw_init pics at before)
hw_init-IsStarted_example = hw_init-IsStarted pics at before pics-IsPic
