-- ===== src/Ps2/SessionTests.antt =====
-- The keyboard driver at a controller that always shows the status 1 and sends ones.
use marimba.Base.{◌≤◌, ℕ, ◌≡◌, refl, true, false, none, some, [], ◌∷◌, arith}
use marimba.Base.Results.{Ensures}
use marimba.Base.Bytes.{bit}
use marimba.Base.Window.{zeros}
use marimba.Io.{read, Reply}
use marimba.Interrupts.{IrqState}
use marimba.Ps2.Controller.{Keyboard, set_up, open_device, close_device}
use marimba.Ps2.Polling.{owed, IsPolled, IsResponsive, configuration}
use marimba.Ps2.Setup.{set_up-Ensures}
use marimba.Ps2.Sessions.{IsTracked, Runs, opened, closed, started, Runs-IsTracked}

abbrev ones : Reply
ones h port = 1

ones-IsResponsive : IsResponsive 1 ones
ones-IsResponsive = record {
  writable = (λ h. (0, omega arith, refl));
  readable = (λ h some_owed. (0, omega arith, refl));
}

nothing_owed : owed (read 0x60 ∷ []) ≤ 1
unfolding owed
nothing_owed = omega arith

set_up-Ensures_example :
    Ensures
      (λ h'.
        IsPolled ones h'
        × ((c : ℕ) × (configuration h' ≡ some c) × (bit c 0 ≡ 1) × (bit c 1 ≡ 0) × (bit c 6 ≡ 0)))
      (set_up 1 ones (read 0x60 ∷ []))
set_up-Ensures_example = set_up-Ensures 1 ones (read 0x60 ∷ []) ones-IsResponsive tt nothing_owed

abbrev irq : IrqState
irq = record { semaphore = 1; accepting = false }

abbrev shut : Keyboard
shut = record {
  dev = record {
    blocked_procs = [];
    shift_pressed = false;
    buffer = zeros 128;
    pos = 5;
    num_open = 0;
  };
  io = [];
  masks = record { master = 0xFB; slave = 0xFF };
  handlers = (λ i. record { handler = 0; arg = 0 });
  irq = irq;
}

shut-IsTracked : IsTracked ones 0x1000 irq shut
unfolding owed
shut-IsTracked = record {
  small = omega arith;
  masks_valid = record { master_byte = omega arith; slave_byte = omega arith };
  line = refl;
  same_irq = refl;
  polled = tt;
  few = omega arith;
  configured = (λ lt. absurd (omega (arith, lt)));
  registered = (λ lt. absurd (omega (arith, lt)));
}

-- One has opened it, and closes it.
abbrev in_use : Keyboard
in_use = elim (open_device 1 ones 0x1000 true shut) [ none ↦ shut | some (user, k) ↦ k ]

in_use_lem : open_device 1 ones 0x1000 true shut ≡ some (some (record { pos = 5 }), in_use)
unfolding open_device
in_use_lem = refl

in_use_count : in_use.dev.num_open ≡ 1
unfolding open_device
in_use_count = refl

session : Runs 1 ones 0x1000 irq shut (close_device in_use)
session =
    closed in_use
      (opened shut in_use true (some (record { pos = 5 })) started (omega arith) in_use_lem)
      (rw in_use_count (omega arith))

Runs-IsTracked_example : IsTracked ones 0x1000 irq (close_device in_use)
Runs-IsTracked_example =
    Runs-IsTracked 1 ones 0x1000 irq shut (close_device in_use) ones-IsResponsive refl
      shut-IsTracked session
