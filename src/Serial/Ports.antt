-- ===== src/Serial/Ports.antt =====
-- init_x86_serial of src/drivers/serial/x86.c at the ports of COM1, and what the serial port holds after it.
use marimba.Base.{ℕ, ◌+◌, ◌-◌, ◌*◌, ◌/◌, ◌%◌, ◌^◌, ◌&&◌, [], ◌∷◌, ltb, leb, ◌==◌, if◌then◌else◌}
use marimba.Io.{wrote, read, History, Reply, out}
use marimba.Interrupts.{IrqHandler, irq_set_handler}
use marimba.Interrupts.Pic.{clear_mask}
use marimba.Serial.{com1_port}

abbrev pub com1_com3_irq : ℕ
com1_com3_irq = 0x24

abbrev pub ie_reg_offset : ℕ
ie_reg_offset = 1

abbrev pub fifo_cntl_reg_offset : ℕ
fifo_cntl_reg_offset = 2

abbrev pub line_cntl_reg_offset : ℕ
line_cntl_reg_offset = 3

abbrev pub modem_cntl_reg_offset : ℕ
modem_cntl_reg_offset = 4

-- The writes in front of IRQ_set_handler.
unfoldable pub serial_set_up : History → History
serial_set_up h =
    let h1 = out (com1_port + ie_reg_offset) 0x00 h in
    let h2 = out (com1_port + line_cntl_reg_offset) 0x80 h1 in
    let h3 = out com1_port 0x03 h2 in
    let h4 = out (com1_port + 1) 0x00 h3 in
    let h5 = out (com1_port + line_cntl_reg_offset) 0x03 h4 in
    let h6 = out (com1_port + fifo_cntl_reg_offset) 0xC7 h5 in
    out (com1_port + modem_cntl_reg_offset) 0x0B h6

-- The handlers and the ports, with the addresses of x86_serial_isr and of the device.
unfoldable pub init_x86_serial :
    (reply : Reply) (isr gdev : ℕ) → (ℕ → IrqHandler) → History → (ℕ → IrqHandler) × History
unfolding serial_set_up clear_mask irq_set_handler
init_x86_serial reply isr gdev handlers h = (
  irq_set_handler com1_com3_irq (record { handler = isr; arg = gdev }) handlers,
  out (com1_port + ie_reg_offset) 0x02 (clear_mask reply com1_com3_irq (serial_set_up h)),
)

-- The registers of the serial port, after all that was written: bit 7 of the line control selects the divisor.
pub record Uart : Type 0 where
  pub divisor : ℕ
  pub interrupts : ℕ
  pub line_control : ℕ

abbrev pub with_register : (offset value : ℕ) → Uart → Uart
with_register offset value u =
    let divisor_selected = u.line_control / 2 ^ 7 % 2 == 1 in
    if offset == 3
    then record u { line_control = value }
    else if (offset == 0) && divisor_selected
    then record u { divisor = u.divisor / 256 * 256 + value }
    else if (offset == 1) && divisor_selected
    then record u { divisor = value * 256 + u.divisor % 256 }
    else if offset == 1
    then record u { interrupts = value }
    else u

unfoldable pub uart : History → Uart
uart [] = record { divisor = 0; interrupts = 0; line_control = 0 }
uart (read p ∷ h) = uart h
uart (wrote p v ∷ h) =
    let earlier = uart h in
    if leb com1_port p && ltb p (com1_port + 8)
    then with_register (p - com1_port) v earlier
    else earlier
