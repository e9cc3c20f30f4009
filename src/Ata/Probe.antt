-- ===== src/Ata/Probe.antt =====
-- ata_probe of src/drivers/disk/ata.c. The base registers of the PCI header are arguments, and so are
-- the addresses of the device that kmalloc returns and of the handler; `blocks` is the list
-- `files.blocks` that BLK_register adds to.
use marimba.Base.{
  ℕ, ◌+◌, ◌*◌, ◌%◌, ◌^◌, ◌||◌, Option, none, some, List, [], ◌∷◌, ◌++◌, ◌==◌, if◌then◌else◌, get_or,
  bit_and,
}
use marimba.Interrupts.{PicMasks, irq_clear_mask, IrqHandler, irq_set_handler}
use marimba.Io.{History, Reply, inb, out}
use marimba.Ata.{
  AtaDevice, wait_not_busy, check_err, ata_read, write_lba, delay_400ns, drive_reg, cmd_reg,
}

pub record ProbeState : Type 0 where
  pub io : History
  pub masks : PicMasks
  pub handlers : ℕ → IrqHandler
  pub blocks : List ℕ

pub record Probed : Type 0 where
  pub ata : AtaDevice
  pub total_len : ℕ
  pub master : ℕ

abbrev pub primary_irq : ℕ
primary_irq = 46

-- A base register that is 0 or 1 stands for the legacy port.
unfoldable pub port_or : (legacy bar : ℕ) → ℕ
port_or legacy bar = if (bar == 0) || (bar == 1) then legacy else bar

-- The answer to the command IDENTIFY, or `none` for the three errors; the outer `none` is a disk that
-- stays busy.
unfoldable pub identify :
    (fuel : ℕ) → Reply → AtaDevice → History → Option (Option (List ℕ) × History)
identify fuel reply ata h =
    let (status, h1) = inb reply (cmd_reg ata) h in
    if status == 0 then some (none, h1) else elim (wait_not_busy fuel reply ata h1) [
      | none ↦ none
      | some h2 ↦
          let (err, h3) = check_err reply ata h2 in
          if err then some (none, h3) else elim (ata_read fuel reply ata h3) [
            | none ↦ none
            | some (iden, h4) ↦
                if bit_and (get_or iden 83 0) 0x400 == 0
                then some (none, h4)
                else some (some iden, h4)
          ]
    ]

-- `512 * *((uint64_t *)(iden + 100))`
unfoldable pub disk_len : List ℕ → ℕ
disk_len iden =
    512
    * (get_or iden 100 0
        + 2 ^ 16 * get_or iden 101 0
        + 2 ^ 32 * get_or iden 102 0
        + 2 ^ 48 * get_or iden 103 0)
    % 2 ^ 64

-- The device, or `none` for -1.
unfoldable pub ata_probe :
    (fuel : ℕ)
    → Reply
    → (new isr bar0 bar1 bar4 : ℕ) → ProbeState
    → Option (Option Probed × ProbeState)
unfolding irq_set_handler irq_clear_mask
ata_probe fuel reply new isr bar0 bar1 bar4 s =
    let ata : AtaDevice = record {
      base = port_or 0x1F0 bar0;
      cntl_base = port_or 0x3F6 bar1;
      blocked = [];
      requests = [];
    } in
    let h = delay_400ns reply ata (out (drive_reg ata) 0xE0 s.io) in
    let asked = out (cmd_reg ata) 0xEC (write_lba ata 0 1 h) in
    if new == 0 then some (none, s) else elim (identify fuel reply ata asked) [
      | none ↦ none
      | some (none, h') ↦ some (none, record s { io = h' })
      | some (some iden, h') ↦ some (
        some (record { ata = ata; total_len = disk_len iden; master = bar4 }),
        record {
          io = out ata.cntl_base 0 h';
          masks = irq_clear_mask primary_irq s.masks;
          handlers = irq_set_handler primary_irq (record { handler = isr; arg = new }) s.handlers;
          blocks = s.blocks ++ new ∷ [];
        },
      )
    ]
