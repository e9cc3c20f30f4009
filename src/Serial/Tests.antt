-- ===== src/Serial/Tests.antt =====
-- The serial driver on small inputs, and the theorems about it there.
use marimba.Base.{ℕ, ◌≡◌, refl, List, [], ◌∷◌, ◌++◌, arith, ◌==◌, if◌then◌else◌}
use marimba.Base.Window.{zeros, length-zeros}
use marimba.Serial.{SerialDevice, ser_write_str}
use marimba.Serial.Queue.{IsValid, contents, ser_write_str-stream}

-- An empty device at the end of its buffer.
abbrev at_end : SerialDevice
at_end = record {
  output_buff = zeros 1024;
  out_producer_pos = 1023;
  out_consumer_pos = 1023;
  sent = 97 ∷ [];
}

at_end-IsValid : IsValid at_end
at_end-IsValid = record { size = length-zeros 1024; producer = omega arith; consumer = omega arith }

abbrev hi : List ℕ
hi = 104 ∷ 105 ∷ []

-- The line is busy for the first byte, and free for the second.
abbrev status : ℕ → ℕ
status i = if i == 1 then 0x60 else 0x40

wraps :
    let dev = ser_write_str status at_end hi in
    (dev.out_producer_pos ≡ 1) × (dev.out_consumer_pos ≡ 0)
unfolding ser_write_str
wraps = (refl, refl)

-- A device in which one byte waits.
abbrev one_waits : SerialDevice
one_waits = record at_end { out_producer_pos = 0 }

one_waits-IsValid : IsValid one_waits
one_waits-IsValid = record {
  size = length-zeros 1024;
  producer = omega arith;
  consumer = omega arith;
}

ser_write_str-stream_example :
    let dev' = ser_write_str status at_end hi in
    IsValid dev' × (dev'.sent ++ contents dev' ≡ (at_end.sent ++ contents at_end) ++ hi)
ser_write_str-stream_example = ser_write_str-stream status at_end hi at_end-IsValid (omega arith)
