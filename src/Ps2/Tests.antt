-- ===== src/Ps2/Tests.antt =====
-- The keyboard driver on small inputs, and the theorems about it there.
use marimba.Base.{◌≡◌, ◌≢◌, ◌⊎◌, false, List, [], ◌∷◌, ◌++◌, arith}
use marimba.Base.Window.{zeros, length-zeros}
use marimba.Ps2.{Ps2Device, Ps2User, ps2_read, blocked, returned}
use marimba.Ps2.Decode.{KeyEvent, press, release}
use marimba.Ps2.Buffer.{IsValid, contents, take, drop, ps2_read_lem}

-- A device at the last position of its buffer, and a reader there.
abbrev empty : Ps2Device
empty = record {
  blocked_procs = 7 ∷ [];
  shift_pressed = false;
  buffer = zeros 128;
  pos = 127;
  num_open = 1;
}

abbrev reader : Ps2User
reader = record { pos = 127 }

empty-IsValid : IsValid empty
empty-IsValid = record { size = length-zeros 128; in_range = omega arith }

-- Shift and A, then B without shift.
abbrev keys : List KeyEvent
keys = press 0x12 ∷ press 0x1c ∷ release 0x1c ∷ release 0x12 ∷ press 0x32 ∷ release 0x32 ∷ []

ps2_read_lem_example :
    ((contents empty reader ≡ [])
      × (ps2_read empty reader 10 3
          ≡ blocked (record empty { blocked_procs = (7 ∷ []) ++ 3 ∷ [] })))
    ⊎ ((contents empty reader ≢ [])
        × (user' : Ps2User) × (ps2_read empty reader 10 3
            ≡ returned (take 10 (contents empty reader)) user')
        × (contents empty user' ≡ drop 10 (contents empty reader)))
ps2_read_lem_example = ps2_read_lem empty reader 10 3 empty-IsValid (omega arith)
