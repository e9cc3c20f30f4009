-- ===== src/Start/Ready.antt =====
-- The state of the hardware behind HW_init.
use marimba.Base.{
  true, ℕ, ◌+◌, ◌*◌, ◌/◌, ◌%◌, ◌^◌, ◌<◌, ◌≡◌, refl, ap, ◌∙◌, arith, ◌==◌, if◌then◌else◌,
}
use marimba.Io.{History, Reply, out}
use marimba.Base.Bytes.{bit}
use marimba.Interrupts.{PicMasks, irq_set_handler, pic_init_masks, irq_clear_mask}
use marimba.Interrupts.Masks.{masked, masked-irq_clear_mask, masked-pic_init_masks}
use marimba.Interrupts.Pic.{pic_init, clear_mask}
use marimba.Interrupts.Controllers.{
  Shows, IsPic, controller, first_masks, clear_mask-Shows, pic_init-Shows,
}
use marimba.Serial.Ports.{serial_set_up, init_x86_serial, uart}
use marimba.Start.{Addresses, Hardware, irq_x86_64_init, hw_init}

-- The writes of the serial port do not reach the interrupt controllers.
Shows-serial_set_up :
    (masks : PicMasks) (h : History) → Shows masks h → Shows masks (serial_set_up h)
unfolding serial_set_up controller
Shows-serial_set_up masks h s = record {
  valid = s.valid;
  master_ready = s.master_ready;
  slave_ready = s.slave_ready;
  master_base = s.master_base;
  slave_base = s.slave_base;
  master_mask = s.master_mask;
  slave_mask = s.slave_mask;
}

Shows-last : (masks : PicMasks) (v : ℕ) (h : History) → Shows masks h → Shows masks (out 0x3F9 v h)
unfolding controller
Shows-last masks v h s = record {
  valid = s.valid;
  master_ready = s.master_ready;
  slave_ready = s.slave_ready;
  master_base = s.master_base;
  slave_base = s.slave_base;
  master_mask = s.master_mask;
  slave_mask = s.slave_mask;
}

-- The serial port: a third of its clock, eight bits, no parity, one stop bit, and an interrupt when it can send.
third : (x : ℕ) → 0 + (x / 256 * 256 + 3) % 256 ≡ 3
third x = omega arith

uart-serial :
    (reply : Reply) (h : History)
    → uart (out 0x3F9 2 (clear_mask reply 0x24 (serial_set_up h)))
      ≡ record { divisor = 3; interrupts = 2; line_control = 3 }
unfolding uart clear_mask serial_set_up
uart-serial reply h =
    ap (λ (d : ℕ). record { divisor = d; interrupts = 2; line_control = 3 }) (third _)

pub record IsStarted (reply : Reply) (at : Addresses) (before after : Hardware) : Type 0 where
  pub masks : PicMasks
  pub controllers : Shows masks after.io
  pub lines :
      (line : ℕ)
      → line < 16
      → masked masks line
        ≡ (if line == 4 then 0 else if line == 2 then bit (reply before.io 0x21 % 2 ^ 8) 2 else 1)
  pub handlers :
      (i : ℕ)
      → i < 256
      → (after.handlers i).handler
        ≡ (if i == 0x24 then at.serial_isr else if i == 123 then at.syscall_handler else 0)
  pub serial : uart after.io ≡ record { divisor = 3; interrupts = 2; line_control = 3 }
  pub irq : after.irq ≡ record { semaphore = 0; accepting = true }

-- Behind HW_init both interrupt controllers are set up, with the interrupts from 0x20 and 0x28 on; line 4, of the serial
-- port, is open, line 2 is as it was before, and all others are masked; the handlers are those of the system calls
-- and of the serial port and no others; the serial port runs at a third of its clock, with eight bits and one stop bit; and
-- interrupts are accepted, with no section open.
pub hw_init-IsStarted :
    (reply : Reply) (at : Addresses) (hw : Hardware)
    → IsPic reply
    → IsStarted reply at hw (hw_init reply at hw)
unfolding hw_init irq_x86_64_init init_x86_serial irq_set_handler
hw_init-IsStarted reply at hw pic =
    let first = first_masks reply hw.io in
    let masks = pic_init_masks first in
    let up = Shows-serial_set_up masks (pic_init reply hw.io) (pic_init-Shows reply pic hw.io) in
    let cleared =
      clear_mask-Shows reply pic 0x24 masks (serial_set_up (pic_init reply hw.io)) (omega arith)
        (omega arith) up in
    record {
      masks = irq_clear_mask 0x24 masks;
      controllers =
          Shows-last (irq_clear_mask 0x24 masks) 2
            (clear_mask reply 0x24 (serial_set_up (pic_init reply hw.io))) cleared;
      lines = λ line small.
          masked-irq_clear_mask masks 0x24 line up.valid (omega arith) (omega arith) small
          ∙ ap (λ (b : ℕ). if line == 4 then 0 else b)
              (masked-pic_init_masks first line
                (record { master_byte = omega arith; slave_byte = omega arith }) small);
      handlers = λ i small. ground (arith, small);
      serial = uart-serial reply (pic_init reply hw.io);
      irq = refl;
    }
