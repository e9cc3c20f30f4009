-- ===== src/Ata/Tests.antt =====
-- The disk driver on small inputs, and the theorems about it there.
use marimba.Base.{◌≡◌, refl, true, false, [], ◌∷◌, ◌++◌, arith, ◌==◌, if◌then◌else◌}
use marimba.Io.{written, Reply}
use marimba.Ata.{
  read_words, wait_data_ready, ata_read, AtaDevice, DiskState, Finished, busy, failed, finished,
  start_read, finish_read, ata_isr, write_lba,
}
use marimba.Ata.Requests.{commands}
use marimba.Ata.Service.{idle, starts, interrupts, Reach-commands}

abbrev device : AtaDevice
device = record { base = 0x1F0; cntl_base = 0x3F6; blocked = []; requests = [] }

abbrev at_start : DiskState
at_start = record {
  ata = device;
  io = [];
  proc = record {
    ready_queue = 20 ∷ 30 ∷ [];
    procs = 10 ∷ 20 ∷ 30 ∷ [];
    sleep_curr = false;
    curr_proc = 10;
    next_proc = 10;
    irq = record { semaphore = 0; accepting = true };
    flags = λ p. false;
  };
}

-- A disk whose status is always that data is ready, and one that shows an error.
abbrev ready : Reply
ready h port = if port == 0x3F6 then 0x48 else 0x1234

abbrev broken : Reply
broken h port = 0x41

-- Two processes ask for sectors, the disk interrupts, and the first one reads its block.
abbrev two_asked : DiskState
two_asked = ata_isr ready (start_read 9 (start_read 7 at_start))

abbrev state_of : DiskState → Finished → DiskState
state_of s busy = s
state_of s (failed h) = s
state_of s (finished block s') = s'

abbrev one_read : DiskState
one_read = state_of two_asked (finish_read 1 ready two_asked)

both_sent : (commands 0x1F0 two_asked.io ≡ 7 ∷ []) × (commands 0x1F0 one_read.io ≡ 7 ∷ 9 ∷ [])
unfolding commands start_read ata_isr finish_read ata_read wait_data_ready read_words write_lba
    written
both_sent = (refl, refl)

Reach-commands_example : commands 0x1F0 two_asked.io ++ 9 ∷ [] ≡ 7 ∷ 9 ∷ []
unfolding commands start_read ata_isr
Reach-commands_example =
    Reach-commands ready (7 ∷ 9 ∷ []) two_asked
      (interrupts (starts 9 (starts 7 (idle at_start refl refl) (omega arith)) (omega arith)))
