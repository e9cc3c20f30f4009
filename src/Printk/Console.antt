-- ===== src/Printk/Console.antt =====
-- Where printk's characters go: to the text display, and to the serial port if it was set up.
use marimba.Base.{ℕ, Option, none, some, List}
use marimba.Serial.{SerialDevice, ser_write_str}
use marimba.Vga.{VgaTextBuffer, display_str}

pub record Console : Type 0 where
  pub vga : VgaTextBuffer
  pub serial : Option SerialDevice

-- `status` is what the serial port's line status reads at each write.
abbrev pub serial_str : (ℕ → ℕ) → Option SerialDevice → List ℕ → Option SerialDevice
serial_str status none str = none
serial_str status (some dev) str = some (ser_write_str status dev str)

-- display_str, and display_char for a string of one character.
unfoldable pub display : (ℕ → ℕ) → Console → List ℕ → Console
display status console str = record {
  vga = display_str console.vga str;
  serial = serial_str status console.serial str;
}
