-- ===== src/Interrupts/Pic.antt =====
-- The two interrupt controllers of src/arch/x86_64/interrupts.c at their ports: IRQ_set_mask, IRQ_clear_mask and
-- PIC_init.
use marimba.Base.{
  ℕ, zero, suc, ◌+◌, ◌-◌, Bool, not, ◌||◌, ltb, ◌==◌, if◌then◌else◌, bit_and, bit_or,
}
use marimba.Io.{History, Reply, inb, out}
use marimba.Interrupts.{line_bit, pic_master_remap_base}

abbrev pub pic_master_command : ℕ
pic_master_command = 0x20

abbrev pub pic_master_data : ℕ
pic_master_data = 0x21

abbrev pub pic_slave_command : ℕ
pic_slave_command = 0xA0

abbrev pub pic_slave_data : ℕ
pic_slave_data = 0xA1

abbrev pub pic_slave_remap_base : ℕ
pic_slave_remap_base = 0x28

-- The port of a line and its number there.
abbrev pub line_port : ℕ → ℕ × ℕ
line_port line = if ltb line 8 then (pic_master_data, line) else (pic_slave_data, line - 8)

abbrev pub is_line : ℕ → Bool
is_line irq = not (ltb irq pic_master_remap_base || ltb 0x2F (irq - pic_master_remap_base))

module _ (reply : Reply) where
  unfoldable pub set_mask : (irq : ℕ) → History → History
  set_mask irq h =
      if is_line irq
      then (let (port, line) = line_port (irq - pic_master_remap_base) in
          let (value, h') = inb reply port h in out port (bit_or value (line_bit line)) h')
      else h

  unfoldable pub clear_mask : (irq : ℕ) → History → History
  clear_mask irq h =
      if is_line irq
      then (let (port, line) = line_port (irq - pic_master_remap_base) in
          let (value, h') = inb reply port h in out port (bit_and value (255 - line_bit line)) h')
      else h

  -- The loop of PIC_init.
  unfoldable pub set_masks : (n i : ℕ) → History → History
  unfolding set_mask
  set_masks zero i h = h
  set_masks (suc n) i h =
      set_masks n (i + 1) (if i == 2 then h else set_mask (i + pic_master_remap_base) h)

  -- The words that set up the controllers, up to the masks that were saved.
  unfoldable pub pic_set_up : History → History
  pic_set_up h =
      let (a1, h1) = inb reply pic_master_data h in
      let (a2, h2) = inb reply pic_slave_data h1 in
      let h3 = out pic_slave_command 0x11 (out pic_master_command 0x11 h2) in
      let h4 =
        out pic_slave_data pic_slave_remap_base (out pic_master_data pic_master_remap_base h3) in
      let h5 = out pic_slave_data 2 (out pic_master_data 4 h4) in
      let h6 = out pic_slave_data 0x01 (out pic_master_data 0x01 h5) in
      out pic_slave_data a2 (out pic_master_data a1 h6)

  unfoldable pub pic_init : History → History
  unfolding pic_set_up set_masks
  pic_init h = set_masks 16 0 (pic_set_up h)
