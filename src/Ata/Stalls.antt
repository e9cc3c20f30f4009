-- ===== src/Ata/Stalls.antt =====
-- src/drivers/disk/ata.c: what an error of the disk leaves behind.
use marimba.Base.{ℕ, ◌+◌, ◌%◌, ◌^◌, ◌≡◌, false, List, [], ◌∷◌, ◌++◌, ◌==◌, bit_and, length}
use marimba.Io.{read, Reply, written}
use marimba.Ata.{DiskState, start_read, ata_isr}

-- From `s` on, reads that start and interrupts at which the disk shows an error, in any order, with the sectors asked
-- for. A call that waits does not go on meanwhile, since nobody wakes it.
pub data Failing (reply : Reply) (s : DiskState) : List ℕ → DiskState → Type 0 where
  here : Failing reply s [] s
  asks :
      {asked : List ℕ} {t : DiskState} (lba : ℕ)
      → Failing reply s asked t
      → Failing reply s (asked ++ lba ∷ []) (start_read lba t)
  errors :
      {asked : List ℕ} {t : DiskState}
      → Failing reply s asked t
      → (bit_and (reply (read (t.ata.base + 7) ∷ t.io) t.ata.cntl_base % 2 ^ 8) 0x01 == 0) ≡ false
      → Failing reply s asked (ata_isr reply t)

-- What such a run leaves: nothing was written to a port, all requests wait behind the first, and the processes that
-- waited still do, with one more for each sector.
pub record IsStalled (s : DiskState) (asked : List ℕ) (t : DiskState) : Type 0 where
  pub silent : (port : ℕ) → written port t.io ≡ written port s.io
  pub queued : t.ata.requests ≡ s.ata.requests ++ asked
  pub others : List ℕ
  pub asleep : t.ata.blocked ≡ s.ata.blocked ++ others
  pub each : length others ≡ length asked
