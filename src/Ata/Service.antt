-- ===== src/Ata/Service.antt =====
-- src/drivers/disk/ata.c: the order in which the requests of many processes reach the disk.
use marimba.Base.{
  subst, ℕ, ◌+◌, ◌%◌, ◌^◌, ◌<◌, ◌≡◌, refl, sym, ap, ◌∙◌, inl, inr, not, Option, none, some, List,
  [], ◌∷◌, ◌++◌, append_assoc, append-nil, ◌==◌, Bool-cases, bit_and,
}
use marimba.Io.{read, History, Reply}
use marimba.Ata.{
  AtaDevice, DiskState, Finished, busy, failed, finished, ata_read, send_read, start_read,
  finish_read, ata_isr, rest_of,
}
use marimba.Ata.Requests.{commands, commands-send_read, ata_read-IsBlockRead, IsBlockRead}

-- What happens from an idle disk on as long as no read fails, with the sectors asked for so far, in order.
pub data Reach (reply : Reply) : List ℕ → DiskState → Type 0 where
  idle : (s : DiskState) → s.ata.requests ≡ [] → commands s.ata.base s.io ≡ [] → Reach reply [] s
  starts :
      {asked : List ℕ} {s : DiskState} (lba : ℕ)
      → Reach reply asked s
      → lba < 2 ^ 48
      → Reach reply (asked ++ lba ∷ []) (start_read lba s)
  interrupts :
      {asked : List ℕ} {s : DiskState} → Reach reply asked s → Reach reply asked (ata_isr reply s)
  finishes :
      {asked : List ℕ} {s s' : DiskState} {block : List ℕ} (fuel : ℕ)
      → Reach reply asked s
      → finish_read fuel reply s ≡ finished block s'
      → Reach reply asked s'

abbrev ArePlaces : List ℕ → Type 0
ArePlaces [] = Unit
ArePlaces (r ∷ rs) = (r < 2 ^ 48) × ArePlaces rs

-- The sectors asked for are those sent to the disk and those that wait behind the first request.
record IsServed (asked : List ℕ) (base : ℕ) (io : History) (requests : List ℕ) : Type 0 where
  ordered : commands base io ++ rest_of requests ≡ asked
  places : ArePlaces requests

IsServedIn : List ℕ → DiskState → Type 0
IsServedIn asked s = IsServed asked s.ata.base s.io s.ata.requests

ArePlaces-append :
    (rs : List ℕ) (lba : ℕ) → ArePlaces rs → lba < 2 ^ 48 → ArePlaces (rs ++ lba ∷ [])
ArePlaces-append [] lba rs_small small = (small, tt)
ArePlaces-append (r ∷ rs) lba (r_small, rs_small) small =
    (r_small, ArePlaces-append rs lba rs_small small)

queued-IsServed :
    (asked : List ℕ) (ata : AtaDevice) (h : History) (lba : ℕ) (rs : List ℕ)
    → IsServed asked ata.base h rs
    → lba < 2 ^ 48
    → IsServed
        (asked ++ lba ∷ [])
        ata.base
        (elim rs [ [] ↦ send_read ata lba h | r ∷ rs' ↦ h ])
        (rs ++ lba ∷ [])
queued-IsServed asked ata h lba [] v small = record {
  ordered =
      rw (commands-send_read ata lba h small)
        (append-nil _ ∙ ap (λ c. c ++ lba ∷ []) (sym (append-nil _) ∙ v.ordered));
  places = (small, tt);
}
queued-IsServed asked ata h lba (r ∷ rs) v small = record {
  ordered = sym (append_assoc _ rs (lba ∷ [])) ∙ ap (λ c. c ++ lba ∷ []) v.ordered;
  places = ArePlaces-append (r ∷ rs) lba v.places small;
}

start_read-IsServed :
    (asked : List ℕ) (s : DiskState) (lba : ℕ)
    → IsServedIn asked s
    → lba < 2 ^ 48
    → IsServedIn (asked ++ lba ∷ []) (start_read lba s)
unfolding start_read IsServedIn
start_read-IsServed asked s lba v small =
    queued-IsServed asked s.ata s.io lba s.ata.requests v small

ata_isr-IsServed :
    (reply : Reply) (asked : List ℕ) (s : DiskState)
    → IsServedIn asked s
    → IsServedIn asked (ata_isr reply s)
unfolding ata_isr commands IsServedIn
ata_isr-IsServed reply asked s v =
    let h = read (s.ata.base + 7) ∷ s.io in
    let h1 = read s.ata.cntl_base ∷ h in
    elim (Bool-cases (not (bit_and (reply h s.ata.cntl_base % 2 ^ 8) 0x01 == 0))) [
      | inl err ↦ rw err (record { ordered = v.ordered; places = v.places })
      | inr fine ↦
          rw fine (elim (Bool-cases (not (bit_and (reply h1 s.ata.cntl_base % 2 ^ 8) 0x08 == 0))) [
            | inl there ↦ rw there (record { ordered = v.ordered; places = v.places })
            | inr lacks ↦ rw lacks (record { ordered = v.ordered; places = v.places })
          ])
    ]

sent-IsServed :
    (asked : List ℕ) (ata : AtaDevice) (h h' : History) (rs : List ℕ)
    → IsServed asked ata.base h rs
    → commands ata.base h' ≡ commands ata.base h
    → IsServed asked ata.base
        (elim (rest_of rs) [ [] ↦ h' | next ∷ rs' ↦ send_read ata next h' ])
        (rest_of rs)
sent-IsServed asked ata h h' [] v same = record { ordered = rw same v.ordered; places = tt }
sent-IsServed asked ata h h' (r ∷ []) v same = record { ordered = rw same v.ordered; places = tt }
sent-IsServed asked ata h h' (r ∷ next ∷ rs) v same = record {
  ordered =
      rw (commands-send_read ata next h' v.places.1.0)
        (rw same (append_assoc _ (next ∷ []) rs ∙ v.ordered));
  places = v.places.1;
}

abbrev OutcomeIsServed : List ℕ → Finished → Type 0
OutcomeIsServed asked busy = Unit
OutcomeIsServed asked (failed h) = Unit
OutcomeIsServed asked (finished block s) = IsServedIn asked s

abbrev outcome : DiskState → Option (List ℕ × History) → Finished
outcome s none = busy
outcome s (some (words, h)) =
    let requests = rest_of s.ata.requests in
    finished words (record s {
      ata = record s.ata { requests = requests };
      io = elim requests [ [] ↦ h | next ∷ rs ↦ send_read s.ata next h ];
    })

outcome-IsServed :
    (asked : List ℕ) (s : DiskState) (h : History) (r : Option (List ℕ × History))
    → IsServed asked s.ata.base h s.ata.requests
    → IsBlockRead s.ata h r
    → OutcomeIsServed asked (outcome s r)
unfolding IsServedIn
outcome-IsServed asked s h none v same = tt
outcome-IsServed asked s h (some (words, h')) v same =
    sent-IsServed asked s.ata h h' s.ata.requests v same

finish_read-IsServed :
    (fuel : ℕ) (reply : Reply) (asked : List ℕ) (s : DiskState)
    → IsServedIn asked s
    → OutcomeIsServed asked (finish_read fuel reply s)
unfolding finish_read IsServedIn commands
finish_read-IsServed fuel reply asked s v =
    let h = read s.ata.cntl_base ∷ s.io in
    let seen : IsServed asked s.ata.base h s.ata.requests = record {
      ordered = v.ordered;
      places = v.places;
    } in
    elim (Bool-cases (not (bit_and (reply s.io s.ata.cntl_base % 2 ^ 8) 0x08 == 0))) [
      | inl there ↦ rw there (
          outcome-IsServed asked s h (ata_read fuel reply s.ata h) seen
            (ata_read-IsBlockRead fuel reply s.ata h))
      | inr lacks ↦ rw lacks tt
    ]

Reach-IsServed :
    {reply : Reply} {asked : List ℕ} {s : DiskState} → Reach reply asked s → IsServedIn asked s
unfolding IsServedIn
Reach-IsServed (idle s none_waits none_sent) = record {
  ordered = rw none_sent (rw none_waits refl);
  places = rw none_waits tt;
}
Reach-IsServed (starts {asked} {s} lba r small) =
    start_read-IsServed asked s lba (Reach-IsServed r) small
Reach-IsServed {reply} (interrupts {asked} {s} r) =
    ata_isr-IsServed reply asked s (Reach-IsServed r)
Reach-IsServed {reply} (finishes {asked} {s} fuel r e) =
    subst (OutcomeIsServed asked) e (finish_read-IsServed fuel reply asked s (Reach-IsServed r))

-- From an idle disk to which no read was sent, by reads that start, interrupts, with an error or not, and reads that
-- return their block, in any order, as long as no read returns -1: the sectors of the read commands
-- are those that were asked for, in that order, less the ones that wait behind the first request.
pub Reach-commands :
    (reply : Reply) (asked : List ℕ) (s : DiskState)
    → Reach reply asked s
    → commands s.ata.base s.io ++ rest_of s.ata.requests ≡ asked
unfolding IsServedIn
Reach-commands reply asked s r = (Reach-IsServed r).ordered
