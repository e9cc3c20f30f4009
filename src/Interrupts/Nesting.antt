-- ===== src/Interrupts/Nesting.antt =====
-- Sections between IRQ_disable and IRQ_enable nest.
use marimba.Base.{ℕ, ◌+◌, ◌-◌, ◌<◌, ◌≡◌, false, List, [], ◌∷◌, arith, ◌==◌, if◌then◌else◌}
use marimba.Interrupts.{IrqState, irq_disable, irq_enable}

-- The processor accepts interrupts exactly when no section is open.
abbrev pub IsConsistent : IrqState → Type 0
IsConsistent s = s.accepting ≡ (s.semaphore == 0)

pub data Call : Type 0 where
  disable enable : Call

pub run : List Call → IrqState → IrqState
run [] s = s
run (disable ∷ calls) s = run calls (irq_disable s)
run (enable ∷ calls) s = run calls (irq_enable s)

-- The calls close the `open` sections and every one that they open, and no other.
abbrev pub Closes : ℕ → List Call → Type 0
Closes open_sections [] = open_sections ≡ 0
Closes open_sections (disable ∷ calls) = Closes (open_sections + 1) calls
Closes open_sections (enable ∷ calls) = (0 < open_sections) × Closes (open_sections - 1) calls

-- The state with `n` more sections open.
abbrev opened : ℕ → IrqState → IrqState
opened n s = if n == 0 then s else record { semaphore = s.semaphore + n; accepting = false }

irq_disable-opened :
    (n : ℕ) (s : IrqState) → IsConsistent s → irq_disable (opened n s) ≡ opened (n + 1) s
unfolding irq_disable
irq_disable-opened n s c = ground arith

irq_enable-opened :
    (n : ℕ) (s : IrqState) → IsConsistent s → 0 < n → irq_enable (opened n s) ≡ opened (n - 1) s
unfolding irq_enable
irq_enable-opened n s c h = ground arith

run-opened :
    (calls : List Call) (n : ℕ) (s : IrqState)
    → IsConsistent s
    → Closes n calls
    → run calls (opened n s) ≡ s
unfolding run
run-opened [] n s c h = ground arith
run-opened (disable ∷ calls) n s c h =
    rw (irq_disable-opened n s c) (run-opened calls (n + 1) s c h)
run-opened (enable ∷ calls) n s c h =
    rw (irq_enable-opened n s c h.0) (run-opened calls (n - 1) s c h.1)

-- However IRQ_disable and IRQ_enable are nested, a sequence in which each section is opened before
-- it is closed, and all are closed, gives back the semaphore and the processor's setting.
pub run-Closes :
    (calls : List Call) (s : IrqState) → IsConsistent s → Closes 0 calls → run calls s ≡ s
run-Closes calls s c h = run-opened calls 0 s c h

-- Calls of IRQ_disable and IRQ_enable in any order keep it so that the processor accepts
-- interrupts exactly when no section is open.
pub run-IsConsistent :
    (calls : List Call) (s : IrqState) → IsConsistent s → IsConsistent (run calls s)
unfolding run irq_disable irq_enable
run-IsConsistent [] s c = c
run-IsConsistent (disable ∷ calls) s c = run-IsConsistent calls (irq_disable s) (ground arith)
run-IsConsistent (enable ∷ calls) s c = run-IsConsistent calls (irq_enable s) (ground arith)
