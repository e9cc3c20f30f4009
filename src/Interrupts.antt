-- ===== src/Interrupts.antt =====
-- src/arch/x86_64/interrupts.c: the nesting of IRQ_disable and IRQ_enable, the masks of the two
-- interrupt controllers and the handler table.
pub mod Nesting
pub mod Masks
pub mod Pic
pub mod Controllers
mod Tests
use marimba.Base.{
  ℕ, zero, suc, ◌+◌, ◌-◌, ◌*◌, ◌/◌, ◌%◌, ◌^◌, ◌≤◌, ◌<◌, ◌≡◌, ◌≢◌, refl, sym, ap, ◌∙◌, ◌⊎◌, inl, inr,
  Bool, true, false, not, ◌&&◌, ◌||◌, Option, none, some, List, [], ◌∷◌, ◌++◌, map, append_assoc,
  append-nil, arith, ltb, leb, ◌==◌, ==_iff, if◌then◌else◌, Bool-cases, length, length-append,
  length-set, get_or, set, has, bit_and, bit_or,
}

-- `irq_semaphore`, and whether the processor accepts interrupts (STI sets it, CLI clears it).
pub record IrqState : Type 0 where
  pub semaphore : ℕ
  pub accepting : Bool

unfoldable pub irq_disable : IrqState → IrqState
irq_disable s =
    let s' = if s.semaphore == 0 then record s { accepting = false } else s in
    record s' { semaphore = s'.semaphore + 1 }

unfoldable pub irq_enable : IrqState → IrqState
irq_enable s =
    if s.semaphore == 0
    then s
    else (let n = s.semaphore - 1 in
        if n == 0 then record { semaphore = n; accepting = true } else record s { semaphore = n })

abbrev pub pic_master_remap_base : ℕ
pic_master_remap_base = 0x20

-- What the data ports of the two controllers hold: a set bit masks its line.
pub record PicMasks : Type 0 where
  pub master : ℕ
  pub slave : ℕ

-- `1 << line` cut to the 8 bits of a port, for the lines below 31 at which C defines the shift.
abbrev pub line_bit : ℕ → ℕ
line_bit line = 2 ^ line % 256

-- IRQ_set_mask and IRQ_clear_mask, with `irq` an `unsigned char`; outside the lines that they
-- support they only log.
unfoldable pub irq_set_mask : ℕ → PicMasks → PicMasks
irq_set_mask irq pic =
    if ltb irq pic_master_remap_base || ltb 0x2F (irq - pic_master_remap_base)
    then pic
    else if ltb (irq - pic_master_remap_base) 8
    then record pic { master = bit_or pic.master (line_bit (irq - pic_master_remap_base)) }
    else record pic { slave = bit_or pic.slave (line_bit (irq - pic_master_remap_base - 8)) }

unfoldable pub irq_clear_mask : ℕ → PicMasks → PicMasks
irq_clear_mask irq pic =
    if ltb irq pic_master_remap_base || ltb 0x2F (irq - pic_master_remap_base)
    then pic
    else if ltb (irq - pic_master_remap_base) 8
    then record pic { master = bit_and pic.master (255 - line_bit (irq - pic_master_remap_base)) }
    else record pic { slave = bit_and pic.slave (255 - line_bit (irq - pic_master_remap_base - 8)) }

-- The masking loop of PIC_init: all lines but the one of the slave controller.
pub mask_lines : ℕ → ℕ → PicMasks → PicMasks
mask_lines zero i pic = pic
mask_lines (suc n) i pic =
    mask_lines n (i + 1) (if i == 2 then pic else irq_set_mask (i + pic_master_remap_base) pic)

unfoldable pub pic_init_masks : PicMasks → PicMasks
unfolding mask_lines irq_set_mask
pic_init_masks pic = mask_lines 16 0 pic

-- The controllers that PIC_sendEOI acknowledges an interrupt to.
pub data Port : Type 0 where
  slave_command master_command : Port

unfoldable pub pic_send_eoi : ℕ → List Port
pic_send_eoi line = if leb 8 line then slave_command ∷ master_command ∷ [] else master_command ∷ []

unfoldable pub irq_end_of_interrupt : ℕ → List Port
unfolding pic_send_eoi
irq_end_of_interrupt irq =
    if ltb irq pic_master_remap_base || ltb 0x2F (irq - pic_master_remap_base)
    then []
    else pic_send_eoi (irq - pic_master_remap_base)

-- A row of the handler table: the addresses of the handler and its argument.
pub record IrqHandler : Type 0 where
  pub handler : ℕ
  pub arg : ℕ

-- The table and the words behind it: index 256 is the first one past the array.
unfoldable pub irq_set_handler : ℕ → IrqHandler → (ℕ → IrqHandler) → ℕ → IrqHandler
irq_set_handler irq h handlers i =
    if ltb 256 irq then handlers i else if i == irq then h else handlers i
