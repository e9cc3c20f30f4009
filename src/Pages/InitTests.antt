-- ===== src/Pages/InitTests.antt =====
-- MMU_init on two megabytes of RAM with a kernel of two pages.
use marimba.Base.{ℕ, ◌≡◌, refl, true, none, List, [], ◌∷◌, some, arith}
use marimba.Interrupts.{IrqState, IrqHandler}
use marimba.Mmu.{Segment}
use marimba.Mmu.Excluded.{compute_excluded}
use marimba.Paging.IdentityTests.{huge_only, huge_only-IsProcessor}
use marimba.Pages.Init.{Tables, MmuState, ready, mmu_init}
use marimba.Pages.Started.{InKernel, IsInit, mmu_init-IsInit}

-- Two sections of the kernel, which are merged.
abbrev kernel : List Segment
kernel = record { base = 0x100010; len = 0x20 } ∷ record { base = 0x100F00; len = 0x200 } ∷ []

abbrev merged : Segment
merged = record { base = 0x100000; len = 0x2000 }

kernel-merged : compute_excluded kernel ≡ merged ∷ []
unfolding compute_excluded
kernel-merged = refl

abbrev tables : Tables
tables = record { identity_p3 = 0x100000; identity_p2 = 0x101000; page_fault_handler = 0x100010 }

tables-InKernel : InKernel tables 0x100000 0x102000
tables-InKernel = record {
  third = (omega arith, refl, omega arith);
  second = (omega arith, refl, omega arith);
  different = omega arith;
  third_low = omega arith;
  third_high = omega arith;
  second_low = omega arith;
  second_high = omega arith;
}

abbrev irq : IrqState
irq = record { semaphore = 0; accepting = true }

abbrev handlers : ℕ → IrqHandler
handlers i = record { handler = 0; arg = 0 }

mmu_init-IsInit_example :
    (s : MmuState) × (mmu_init 2
        (record { base = 0x1000; len = 0x1FF000 } ∷ [])
        kernel
        tables
        irq
        handlers
        (λ a. 0)
      ≡ some (ready s))
    × IsInit huge_only 0x1000 0x100000 0x102000 0x200000 s
mmu_init-IsInit_example =
    mmu_init-IsInit huge_only 0 0x1000 0x1FF000 merged kernel tables irq handlers (λ a. 0)
      huge_only-IsProcessor (omega arith) kernel-merged tables-InKernel (omega arith) refl refl refl
      refl (omega arith) (omega arith) (omega arith)

-- Without RAM there is no page table; here MMU_init reads through the head of an empty list instead.
no_ram : mmu_init 2 [] kernel tables irq handlers (λ a. 0) ≡ none
unfolding mmu_init marimba.Mmu.Free.round_all marimba.Mmu.Free.copy_ram
    marimba.Mmu.Free.remove_excluded marimba.Mmu.Free.skip_null_page
no_ram = refl
