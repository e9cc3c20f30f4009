-- ===== src/Ps2/Controller.antt =====
-- The ports of the keyboard controller in src/drivers/keyboard/ps2.c: the waits, the commands, ps2_init,
-- and the opening and closing of the device. `none` is a wait that is not over after `fuel` reads.
use marimba.Base.Results.{◌>>=◌}
use marimba.Base.{
  ℕ, zero, suc, ◌+◌, ◌-◌, ◌%◌, ◌^◌, Bool, true, false, not, Option, none, some, ◌==◌, if◌then◌else◌,
  bit_and, bit_or,
}
use marimba.Io.{History, Reply, inb, out}
use marimba.Interrupts.{
  IrqState, irq_disable, irq_enable, PicMasks, irq_set_mask, irq_clear_mask, IrqHandler,
  irq_set_handler,
}
use marimba.Ps2.{Ps2Device, Ps2User, ps2_open}

abbrev pub data_port : ℕ
data_port = 0x60

abbrev pub cmd_port : ℕ
cmd_port = 0x64

abbrev pub status_port : ℕ
status_port = 0x64

-- Is the input buffer full, and is there a byte to read?
abbrev pub input_full : ℕ → Bool
input_full status = not (bit_and status 2 == 0)

abbrev pub output_full : ℕ → Bool
output_full status = not (bit_and status 1 == 0)

unfoldable pub wait_writable : (fuel : ℕ) → Reply → History → Option History
wait_writable zero reply h = none
wait_writable (suc fuel) reply h =
    let (status, h') = inb reply status_port h in
    let rest = wait_writable fuel reply h' in if input_full status then rest else some h'

unfoldable pub wait_readable : (fuel : ℕ) → Reply → History → Option History
wait_readable zero reply h = none
wait_readable (suc fuel) reply h =
    let (status, h') = inb reply status_port h in
    let rest = wait_readable fuel reply h' in if output_full status then some h' else rest

module _ (fuel : ℕ) (reply : Reply) where
  unfoldable pub read_cmd : (cmd : ℕ) → History → Option (ℕ × History)
  unfolding wait_writable wait_readable
  read_cmd cmd h = do
    h1 ← wait_writable fuel reply h
    h2 ← wait_readable fuel reply (out cmd_port cmd h1)
    some (inb reply data_port h2)

  unfoldable pub write_cmd : (cmd val : ℕ) → History → Option History
  unfolding wait_writable
  write_cmd cmd val h = do
    h1 ← wait_writable fuel reply h
    h2 ← wait_writable fuel reply (out cmd_port cmd h1)
    some (out data_port val h2)

  unfoldable pub write_data_p1 : (val : ℕ) → History → Option History
  unfolding wait_writable
  write_data_p1 val h = do h1 ← wait_writable fuel reply h; some (out data_port val h1)

  unfoldable pub read_data_p1 : History → Option (ℕ × History)
  unfolding wait_readable
  read_data_p1 h = do h1 ← wait_readable fuel reply h; some (inb reply data_port h1)

-- The byte that ps2_init makes of the configuration: an interrupt for port 1, none for port 2, and no
-- translation.
abbrev pub new_config : ℕ → ℕ
new_config cntl_cfg = bit_or (bit_and cntl_cfg (255 - 0x43)) 0x01

-- What ps2_init sends and reads. The answers of the tests only go to the log.
module _ (fuel : ℕ) (reply : Reply) where
  unfoldable pub set_up : History → Option History
  unfolding read_cmd write_cmd write_data_p1 read_data_p1
  set_up h = do
    let flushed = (inb reply data_port (out cmd_port 0xA7 (out cmd_port 0xAD h))).1
    (cntl_cfg, h1) ← read_cmd fuel reply 0x20 flushed
    h2 ← write_cmd fuel reply 0x60 (new_config cntl_cfg) h1
    (self_test, h3) ← read_cmd fuel reply 0xAA h2
    h4 ← write_cmd fuel reply 0x60 (new_config cntl_cfg) h3
    (interface_test, h5) ← read_cmd fuel reply 0xAB h4
    h6 ← write_data_p1 fuel reply 0xFF (out cmd_port 0xAE h5)
    (acknowledged, h7) ← read_data_p1 fuel reply h6
    (reset, h8) ← read_data_p1 fuel reply h7
    some h8

-- The driver: its device, the ports, the masks, the handlers and the state of the interrupts.
pub record Keyboard : Type 0 where
  pub dev : Ps2Device
  pub io : History
  pub masks : PicMasks
  pub handlers : ℕ → IrqHandler
  pub irq : IrqState

abbrev pub keyboard_irq : ℕ
keyboard_irq = 0x21

-- `isr` is the address of ps2_isr.
module _ (fuel : ℕ) (reply : Reply) (isr : ℕ) where
  unfoldable pub ps2_init : Keyboard → Option Keyboard
  unfolding set_up irq_set_handler irq_clear_mask
  ps2_init k = do
    h ← set_up fuel reply k.io
    some (record k {
      io = h;
      masks = irq_clear_mask keyboard_irq k.masks;
      handlers = irq_set_handler keyboard_irq (record { handler = isr; arg = 0 }) k.handlers;
    })

  -- ps2_open, whether kmalloc has memory or not: the reader, or `none` for -1.
  unfoldable pub open_device : (memory : Bool) → Keyboard → Option (Option Ps2User × Keyboard)
  unfolding ps2_init ps2_open irq_disable irq_enable
  open_device false k = some (none, k)
  open_device true k = do
    let off = record k { irq = irq_disable k.irq }
    k' ← if off.dev.num_open == 0 then ps2_init off else some off
    let (user, dev) = ps2_open k'.dev
    some (some user, record k' { dev = dev; irq = irq_enable k'.irq })

-- ps2_close behind its call of kfree: `num_open` is an `int`.
unfoldable pub close_device : Keyboard → Keyboard
unfolding irq_set_mask irq_disable irq_enable
close_device k =
    let num_open = (k.dev.num_open + 2 ^ 32 - 1) % 2 ^ 32 in
    record k {
      dev = record k.dev { num_open = num_open };
      masks = if num_open == 0 then irq_set_mask keyboard_irq k.masks else k.masks;
      irq = irq_enable (irq_disable k.irq);
    }
