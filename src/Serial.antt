-- ===== src/Serial.antt =====
-- src/drivers/serial/x86.c and serial.c: the COM1 driver with its circular output buffer. What the
-- line status register shows is an argument of the calls that read it, and what the driver writes
-- to ports is collected in order. `x86_write` runs between IRQ_disable and IRQ_enable, so no call
-- here is interrupted.
pub mod Queue
pub mod Ports
mod Tests
use marimba.Base.{
  ℕ, ◌+◌, ◌-◌, ◌%◌, List, [], ◌∷◌, ◌++◌, Bool, ◌==◌, if◌then◌else◌, get_or, set, bit_and, not,
}

abbrev pub output_buff_size : ℕ
output_buff_size = 1024

abbrev pub com1_port : ℕ
com1_port = 0x3F8

-- `struct x86SerialDevice`, with the bytes sent to the data port of COM1 so far, the oldest first.
pub record SerialDevice : Type 0 where
  pub output_buff : List ℕ
  pub out_producer_pos : ℕ
  pub out_consumer_pos : ℕ
  pub sent : List ℕ

-- `BUFF_POS(pos+1)` and `BUFF_POS(pos-1)`: the macro takes -1 to the last position.
abbrev pub buff_pos_after : ℕ → ℕ
buff_pos_after pos = (pos + 1) % output_buff_size

abbrev pub buff_pos_before : ℕ → ℕ
buff_pos_before pos = if pos == 0 then output_buff_size - 1 else (pos - 1) % output_buff_size

-- Bit 5 of the line status.
unfoldable pub is_transmit_empty : ℕ → Bool
is_transmit_empty status = not (bit_and status 0x20 == 0)

unfoldable pub consumer_write_next : SerialDevice → SerialDevice
consumer_write_next dev =
    if dev.out_consumer_pos == dev.out_producer_pos
    then dev
    else (let next = get_or dev.output_buff dev.out_consumer_pos 0 in
        record dev {
          out_consumer_pos = buff_pos_after dev.out_consumer_pos;
          sent = dev.sent ++ next ∷ [];
        })

unfoldable pub producer_add_char : SerialDevice → ℕ → SerialDevice
producer_add_char dev c =
    if dev.out_producer_pos == buff_pos_before dev.out_consumer_pos then dev else record dev {
      output_buff = set dev.output_buff dev.out_producer_pos c;
      out_producer_pos = buff_pos_after dev.out_producer_pos;
    }

unfoldable pub x86_serial_isr : ℕ → SerialDevice → SerialDevice
unfolding is_transmit_empty consumer_write_next
x86_serial_isr status dev = if is_transmit_empty status then consumer_write_next dev else dev

unfoldable pub x86_write : ℕ → SerialDevice → ℕ → SerialDevice
unfolding producer_add_char is_transmit_empty consumer_write_next
x86_write status dev c =
    let added = producer_add_char dev c in
    if is_transmit_empty status then consumer_write_next added else added

-- SER_write_str, up to the terminating zero, and SER_write: the status that each write sees is
-- given by the number of writes before it. (`x86_write` never returns an error.)
ser_write_from : (ℕ → ℕ) → ℕ → SerialDevice → List ℕ → SerialDevice
ser_write_from status i dev [] = dev
ser_write_from status i dev (c ∷ cs) = ser_write_from status (i + 1) (x86_write (status i) dev c) cs

unfoldable pub ser_write_str : (ℕ → ℕ) → SerialDevice → List ℕ → SerialDevice
unfolding ser_write_from x86_write
ser_write_str status dev str = ser_write_from status 0 dev str
