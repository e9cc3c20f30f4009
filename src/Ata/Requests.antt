-- ===== src/Ata/Requests.antt =====
-- src/drivers/disk/ata.c: the commands that reach the disk, and the requests that wait for theirs.
use marimba.Base.{
  ℕ, zero, suc, ◌+◌, ◌*◌, ◌/◌, ◌%◌, ◌^◌, ◌<◌, ◌≡◌, refl, ◌∙◌, inl, inr, Bool, true, false, not,
  ◌&&◌, Option, none, some, List, [], ◌∷◌, ◌++◌, arith, ◌==◌, if◌then◌else◌, Bool-cases, get_or,
  bit_and,
}
use marimba.Io.{wrote, read, History, Reply, out, written}
use marimba.Ata.{
  AtaDevice, wait_data_ready, read_words, ata_read, write_lba, send_read, read_pio_ext,
}

abbrev pub last : ℕ → History → ℕ
last port h = get_or (written port h) 0 0

abbrev pub before_last : ℕ → History → ℕ
before_last port h = get_or (written port h) 1 0

-- The sector that the address registers hold: each keeps the last two bytes written to it.
abbrev pub sector : ℕ → History → ℕ
sector base h =
    last (base + 3) h
    + 2 ^ 8 * last (base + 4) h
    + 2 ^ 16 * last (base + 5) h
    + 2 ^ 24 * before_last (base + 3) h
    + 2 ^ 32 * before_last (base + 4) h
    + 2 ^ 40 * before_last (base + 5) h

abbrev pub sector_count : ℕ → History → ℕ
sector_count base h = last (base + 2) h + 2 ^ 8 * before_last (base + 2) h

-- The sectors of the read commands, the oldest first.
unfoldable pub commands : ℕ → History → List ℕ
commands base [] = []
commands base (read p ∷ h) = commands base h
commands base (wrote p v ∷ h) =
    let earlier = commands base h in
    if (p == base + 7) && (v == read_pio_ext) then earlier ++ sector base h ∷ [] else earlier

-- A sequence of writes to registers, by their offsets.
unfoldable pub sends : (base : ℕ) → List (ℕ × ℕ) → History → History
sends base [] h = h
sends base ((o, v) ∷ writes) h = sends base writes (out (base + o) v h)

unfoldable selected : ℕ → List (ℕ × ℕ) → List ℕ → List ℕ
selected q [] values = values
selected q ((o, v) ∷ writes) values = selected q writes (if o == q then v ∷ values else values)

written-sends :
    (base q : ℕ) (writes : List (ℕ × ℕ)) (h : History)
    → written (base + q) (sends base writes h) ≡ selected q writes (written (base + q) h)
unfolding written sends selected
written-sends base q [] h = refl
written-sends base q ((o, v) ∷ writes) h =
    let offsets : (base + o == base + q) ≡ (o == q) = ground arith in
    rw (written-sends base q writes (out (base + o) v h)) (rw offsets refl)

unfoldable no_command : List (ℕ × ℕ) → Bool
no_command [] = true
no_command ((o, v) ∷ writes) = not (o == 7) && no_command writes

commands-sends :
    (base : ℕ) (writes : List (ℕ × ℕ)) (h : History)
    → no_command writes ≡ true
    → commands base (sends base writes h) ≡ commands base h
unfolding commands sends no_command
commands-sends base [] h none_there = refl
commands-sends base ((o, v) ∷ writes) h none_there =
    let other : (base + o == base + 7) ≡ false = ground arith in
    let behind : no_command writes ≡ true = ground arith in
    rw (commands-sends base writes (out (base + o) v h) behind) (rw other refl)

abbrev lba_writes : (lba count : ℕ) → List (ℕ × ℕ)
lba_writes lba count =
    (2, count / 2 ^ 8 % 256)
    ∷ (3, lba / 2 ^ 24 % 256)
    ∷ (4, lba / 2 ^ 32 % 256)
    ∷ (5, lba / 2 ^ 40 % 256)
    ∷ (2, count % 256)
    ∷ (3, lba % 256)
    ∷ (4, lba / 2 ^ 8 % 256)
    ∷ (5, lba / 2 ^ 16 % 256)
    ∷ []

write_lba-sends :
    (ata : AtaDevice) (lba count : ℕ) (h : History)
    → write_lba ata lba count h ≡ sends ata.base (lba_writes lba count) h
unfolding write_lba sends
write_lba-sends ata lba count h = refl

-- The address registers hold the sector and the count that write_lba was given.
pub write_lba-sector :
    (ata : AtaDevice) (lba count : ℕ) (h : History)
    → lba < 2 ^ 48
    → count < 2 ^ 16
    → (sector ata.base (write_lba ata lba count h) ≡ lba)
      × (sector_count ata.base (write_lba ata lba count h) ≡ count)
unfolding selected
write_lba-sector ata lba count h small few =
    let writes = lba_writes lba count in
    rw (write_lba-sends ata lba count h) (
      rw (written-sends ata.base 3 writes h) (
        rw (written-sends ata.base 4 writes h) (
          rw (written-sends ata.base 5 writes h)
            (rw (written-sends ata.base 2 writes h) (omega arith, omega arith)))))

commands-write_lba :
    (ata : AtaDevice) (lba count : ℕ) (h : History)
    → commands ata.base (write_lba ata lba count h) ≡ commands ata.base h
unfolding no_command
commands-write_lba ata lba count h =
    rw (write_lba-sends ata lba count h) (commands-sends ata.base (lba_writes lba count) h refl)

pub commands-send_read :
    (ata : AtaDevice) (lba : ℕ) (h : History)
    → lba < 2 ^ 48
    → commands ata.base (send_read ata lba h) ≡ commands ata.base h ++ lba ∷ []
unfolding commands
commands-send_read ata lba h small =
    let here : (ata.base + 7 == ata.base + 7) ≡ true = ground arith in
    rw here (
      rw (write_lba-sector ata lba 1 h small (omega arith)).0
        (rw (commands-write_lba ata lba 1 h) refl))

commands-read_words :
    (n : ℕ) (reply : Reply) (ata : AtaDevice) (h : History)
    → commands ata.base (read_words n reply ata h).1 ≡ commands ata.base h
unfolding read_words commands
commands-read_words zero reply ata h = refl
commands-read_words (suc n) reply ata h = commands-read_words n reply ata (read ata.base ∷ h)

-- Only reads, so that no command is sent, where it returns.
IsReading : AtaDevice → History → Option History → Type 0
IsReading ata h none = Unit
IsReading ata h (some h') = commands ata.base h' ≡ commands ata.base h

wait_data_ready-IsReading :
    (fuel : ℕ) (reply : Reply) (ata : AtaDevice) (h : History)
    → IsReading ata h (wait_data_ready fuel reply ata h)
unfolding wait_data_ready IsReading commands
wait_data_ready-IsReading zero reply ata h = tt
wait_data_ready-IsReading (suc fuel) reply ata h =
    elim (Bool-cases (not (bit_and (reply h ata.cntl_base % 2 ^ 8) 0x08 == 0))) [
      | inl ready ↦ rw ready refl
      | inr waits ↦ rw waits (wait_data_ready-IsReading fuel reply ata (read ata.cntl_base ∷ h))
    ]

-- What follows a wait.
block_after : Reply → AtaDevice → Option History → Option (List ℕ × History)
block_after reply ata none = none
block_after reply ata (some h) = some (read_words 256 reply ata h)

abbrev pub IsBlockRead : AtaDevice → History → Option (List ℕ × History) → Type 0
IsBlockRead ata h none = Unit
IsBlockRead ata h (some (words, h')) = commands ata.base h' ≡ commands ata.base h

block_after-IsBlockRead :
    (reply : Reply) (ata : AtaDevice) (h : History) (r : Option History)
    → IsReading ata h r
    → IsBlockRead ata h (block_after reply ata r)
unfolding block_after IsReading
block_after-IsBlockRead reply ata h none w = tt
block_after-IsBlockRead reply ata h (some h') w = commands-read_words 256 reply ata h' ∙ w

pub ata_read-IsBlockRead :
    (fuel : ℕ) (reply : Reply) (ata : AtaDevice) (h : History)
    → IsBlockRead ata h (ata_read fuel reply ata h)
unfolding ata_read block_after
ata_read-IsBlockRead fuel reply ata h =
    block_after-IsBlockRead reply ata h (wait_data_ready fuel reply ata h)
      (wait_data_ready-IsReading fuel reply ata h)
