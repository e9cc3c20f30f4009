-- ===== src/Ata.antt =====
-- src/drivers/disk/ata.c: requests to a disk, the interrupt that wakes their processes, and the probe.
-- The disk is a `Reply` of the ports. ata_read_block gives up the processor in PROC_block_on, so it is
-- two operations: `start_read` up to there, and `finish_read` from there on. A request is its sector.
mod Requests
mod Service
mod Stalls
pub mod Probe
mod Tests
use marimba.Base.{
  ℕ, zero, suc, ◌+◌, ◌-◌, ◌*◌, ◌/◌, ◌%◌, ◌^◌, ◌≤◌, ◌<◌, ◌≡◌, ◌≢◌, refl, sym, ap, ◌∙◌, ◌⊎◌, inl, inr,
  Bool, true, false, not, ◌&&◌, ◌||◌, Option, none, some, List, [], ◌∷◌, ◌++◌, map, append_assoc,
  append-nil, arith, ltb, leb, ◌==◌, ==_iff, if◌then◌else◌, Bool-cases, length, length-append,
  length-set, get_or, set, has, bit_and, bit_or,
}
use marimba.Interrupts.{irq_disable}
use marimba.Proc.{ProcState, block_on, unblock_head}
use marimba.Io.{PortEvent, wrote, read, History, Reply, inb, inw, out}

pub record AtaDevice : Type 0 where
  pub base : ℕ
  pub cntl_base : ℕ
  pub blocked : List ℕ
  pub requests : List ℕ

pub record DiskState : Type 0 where
  pub ata : AtaDevice
  pub io : History
  pub proc : ProcState

abbrev pub sect_cnt_reg : AtaDevice → ℕ
sect_cnt_reg ata = ata.base + 2

abbrev pub lba_low : AtaDevice → ℕ
lba_low ata = ata.base + 3

abbrev pub lba_mid : AtaDevice → ℕ
lba_mid ata = ata.base + 4

abbrev pub lba_high : AtaDevice → ℕ
lba_high ata = ata.base + 5

abbrev pub drive_reg : AtaDevice → ℕ
drive_reg ata = ata.base + 6

-- The status register where it is read, the command register where it is written.
abbrev pub cmd_reg : AtaDevice → ℕ
cmd_reg ata = ata.base + 7

abbrev pub read_pio_ext : ℕ
read_pio_ext = 0x24

abbrev pub delay_400ns : Reply → AtaDevice → History → History
delay_400ns reply ata h =
    let h1 = (inb reply (cmd_reg ata) h).1 in
    let h2 = (inb reply (cmd_reg ata) h1).1 in
    let h3 = (inb reply (cmd_reg ata) h2).1 in (inb reply (cmd_reg ata) h3).1

-- `none` is a disk that stays busy for `fuel` reads.
unfoldable pub wait_not_busy : (fuel : ℕ) → Reply → AtaDevice → History → Option History
wait_not_busy zero reply ata h = none
wait_not_busy (suc fuel) reply ata h =
    let (status, h') = inb reply ata.cntl_base h in
    let rest = wait_not_busy fuel reply ata h' in if bit_and status 0x80 == 0 then some h' else rest

abbrev pub check_err : Reply → AtaDevice → History → Bool × History
check_err reply ata h =
    let (status, h') = inb reply ata.cntl_base h in (not (bit_and status 0x01 == 0), h')

abbrev pub check_data : Reply → AtaDevice → History → Bool × History
check_data reply ata h =
    let (status, h') = inb reply ata.cntl_base h in (not (bit_and status 0x08 == 0), h')

unfoldable pub wait_data_ready : (fuel : ℕ) → Reply → AtaDevice → History → Option History
wait_data_ready zero reply ata h = none
wait_data_ready (suc fuel) reply ata h =
    let (ready, h') = check_data reply ata h in
    let rest = wait_data_ready fuel reply ata h' in if ready then some h' else rest

unfoldable pub read_words : (n : ℕ) → Reply → AtaDevice → History → List ℕ × History
read_words zero reply ata h = ([], h)
read_words (suc n) reply ata h =
    let (w, h') = inw reply ata.base h in let (ws, h'') = read_words n reply ata h' in (w ∷ ws, h'')

-- ata_read: a block of 256 words.
unfoldable pub ata_read : (fuel : ℕ) → Reply → AtaDevice → History → Option (List ℕ × History)
ata_read fuel reply ata h = elim (wait_data_ready fuel reply ata h) [
  | none ↦ none
  | some h' ↦ some (read_words 256 reply ata h')
]

unfoldable pub ata_isr : Reply → DiskState → DiskState
ata_isr reply s =
    let h = (inb reply (cmd_reg s.ata) s.io).1 in
    let (err, h1) = check_err reply s.ata h in
    let (data_there, h2) = check_data reply s.ata h1 in
    let (queue, proc) = unblock_head s.ata.blocked s.proc in
    if err
    then record s { io = (inb reply (s.ata.base + 1) h1).1 }
    else if not data_there
    then record s { io = (inb reply (s.ata.base + 1) h2).1 }
    else record s { ata = record s.ata { blocked = queue }; io = h2; proc = proc }

unfoldable pub write_lba : AtaDevice → (lba sectorcount : ℕ) → History → History
write_lba ata lba sectorcount h =
    let h1 = out (sect_cnt_reg ata) (sectorcount / 2 ^ 8 % 256) h in
    let h2 = out (lba_low ata) (lba / 2 ^ 24 % 256) h1 in
    let h3 = out (lba_mid ata) (lba / 2 ^ 32 % 256) h2 in
    let h4 = out (lba_high ata) (lba / 2 ^ 40 % 256) h3 in
    let h5 = out (sect_cnt_reg ata) (sectorcount % 256) h4 in
    let h6 = out (lba_low ata) (lba % 256) h5 in
    let h7 = out (lba_mid ata) (lba / 2 ^ 8 % 256) h6 in out (lba_high ata) (lba / 2 ^ 16 % 256) h7

abbrev pub send_read : AtaDevice → ℕ → History → History
send_read ata lba h = out (cmd_reg ata) read_pio_ext (write_lba ata lba 1 h)

unfoldable pub start_read : (lba : ℕ) → DiskState → DiskState
start_read lba s =
    let sent : History = elim s.ata.requests [ [] ↦ send_read s.ata lba s.io | r ∷ rs ↦ s.io ] in
    let queued = s.ata.requests ++ lba ∷ [] in
    let (blocked, proc) =
      block_on true s.ata.blocked (record s.proc { irq = irq_disable s.proc.irq }) in
    record { ata = record s.ata { requests = queued; blocked = blocked }; io = sent; proc = proc }

abbrev pub rest_of : List ℕ → List ℕ
rest_of [] = []
rest_of (r ∷ rs) = rs

-- What the rest of ata_read_block comes to: the disk stays busy for `fuel` reads; or it returns -1, and then the
-- list of requests still links the request on the stack of the call that is over, so that there is no device
-- state to go on with; or the block, and the state.
pub data Finished : Type 0 where
  busy : Finished
  failed : History → Finished
  finished : List ℕ → DiskState → Finished

unfoldable pub finish_read : (fuel : ℕ) → Reply → DiskState → Finished
finish_read fuel reply s =
    let (there, h) = check_data reply s.ata s.io in
    let requests = rest_of s.ata.requests in
    if there
    then elim (ata_read fuel reply s.ata h) [
      | none ↦ busy
      | some (words, h') ↦ finished words (record s {
        ata = record s.ata { requests = requests };
        io = elim requests [ [] ↦ h' | next ∷ rs ↦ send_read s.ata next h' ];
      })
    ]
    else failed h
