-- ===== src/Interrupts/Tests.antt =====
-- The interrupt code on small inputs, and the theorems about it there.
use marimba.Base.{ℕ, ◌≡◌, refl, true, List, [], ◌∷◌, arith}
use marimba.Interrupts.{IrqState, PicMasks, irq_set_handler, IrqHandler, pic_init_masks}
use marimba.Interrupts.Nesting.{Call, disable, enable}
use marimba.Interrupts.Masks.{IsValid}

abbrev open_state : IrqState
open_state = record { semaphore = 0; accepting = true }

abbrev nested : List Call
nested = disable ∷ disable ∷ enable ∷ enable ∷ disable ∷ enable ∷ []

abbrev some_masks : PicMasks
some_masks = record { master = 0x81; slave = 0x40 }

some_masks-IsValid : IsValid some_masks
some_masks-IsValid = record { master_byte = omega arith; slave_byte = omega arith }

-- Behind PIC_init only the line of the slave controller is open.
masks_at_start :
    pic_init_masks (record { master = 0; slave = 0 }) ≡ record { master = 0xFB; slave = 0xFF }
unfolding pic_init_masks
masks_at_start = refl

-- IRQ_set_handler writes one row behind the table for the number 256.
handler_behind :
    (h : IrqHandler) (handlers : ℕ → IrqHandler) → irq_set_handler 256 h handlers 256 ≡ h
unfolding irq_set_handler
handler_behind h handlers = refl
