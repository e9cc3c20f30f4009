-- ===== src/Ps2/Polling.antt =====
-- The polling of the keyboard controller in src/drivers/keyboard/ps2.c: what a history of its ports says, and
-- the waits and the single events of the driver.
use marimba.Base.{
  ℕ, zero, suc, ◌+◌, ◌-◌, ◌%◌, ◌^◌, ◌<◌, ◌≡◌, refl, ap, inl, inr, true, false, ◌&&◌, ◌||◌, Option,
  none, some, [], ◌∷◌, arith, ◌==◌, if◌then◌else◌, Bool-cases,
}
use marimba.Base.Results.{Ensures}
use marimba.Io.{wrote, read, History, Reply, out}
use marimba.Ps2.Controller.{
  data_port, cmd_port, status_port, input_full, output_full, wait_writable, wait_readable,
}

-- The last command.
unfoldable pub last_command : History → ℕ
last_command [] = 0
last_command (read p ∷ h) = last_command h
last_command (wrote p v ∷ h) = let earlier = last_command h in if p == cmd_port then v else earlier

-- The byte last written to the configuration, which is the command 0x60.
unfoldable pub configuration : History → Option ℕ
unfolding last_command
configuration [] = none
configuration (read p ∷ h) = configuration h
configuration (wrote p v ∷ h) =
    let earlier = configuration h in
    if (p == data_port) && (last_command h == 0x60) then some v else earlier

-- The bytes that a command makes the controller send, and those that a byte to the device does.
abbrev pub answers : ℕ → ℕ
answers cmd = if (cmd == 0x20) || ((cmd == 0xAA) || (cmd == 0xAB)) then 1 else 0

-- How many bytes are still to come.
unfoldable pub owed : History → ℕ
unfolding last_command
owed [] = 0
owed (read p ∷ h) = let earlier = owed h in if p == data_port then earlier - 1 else earlier
owed (wrote p v ∷ h) =
    let earlier = owed h in
    if p == cmd_port
    then earlier + answers v
    else if p == data_port
    then (if last_command h == 0x60
        then earlier
        else if v == 0xFF
        then earlier + 2
        else earlier + 1)
    else earlier

-- `k` more reads of the status.
abbrev pub polls : ℕ → History → History
polls zero h = h
polls (suc k) h = polls k (read status_port ∷ h)

-- The controller: within `n` reads of its status it can take a byte, and has one where it owes one.
pub record IsResponsive (n : ℕ) (reply : Reply) : Type 0 where
  pub writable :
      (h : History)
      → (k : ℕ) × (k < n) × (input_full (reply (polls k h) status_port % 2 ^ 8) ≡ false)
  pub readable :
      (h : History)
      → 0 < owed h
      → (k : ℕ) × (k < n) × (output_full (reply (polls k h) status_port % 2 ^ 8) ≡ true)

-- The last event is a read of the status that shows room for a byte.
abbrev pub IsReady : Reply → History → Type 0
IsReady reply [] = ⊥
IsReady reply (wrote p v ∷ h) = ⊥
IsReady reply (read p ∷ h) = (p ≡ status_port) × (input_full (reply h p % 2 ^ 8) ≡ false)

-- Each byte was written to the data port at such a time.
abbrev pub IsPolled : Reply → History → Type 0
IsPolled reply [] = Unit
IsPolled reply (read p ∷ h) = IsPolled reply h
IsPolled reply (wrote p v ∷ h) = (p ≡ data_port → IsReady reply h) × IsPolled reply h

-- What the steps of ps2_init keep track of.
pub record Sent (reply : Reply) (cmd : ℕ) (config : Option ℕ) (owes : ℕ) (h : History)
    : Type 0 where
  pub polled : IsPolled reply h
  pub command : last_command h ≡ cmd
  pub configured : configuration h ≡ config
  pub owing : owed h ≡ owes

module _ (reply : Reply) where
  polled_once :
      (cmd : ℕ) (config : Option ℕ) (owes : ℕ) (h : History)
      → Sent reply cmd config owes h
      → Sent reply cmd config owes (read status_port ∷ h)
  unfolding last_command configuration owed
  polled_once cmd config owes h s = record {
    polled = s.polled;
    command = s.command;
    configured = s.configured;
    owing = s.owing;
  }

  pub wait_writable-Ensures :
      (fuel k cmd : ℕ) (config : Option ℕ) (owes : ℕ) (h : History)
      → k < fuel
      → input_full (reply (polls k h) status_port % 2 ^ 8) ≡ false
      → Sent reply cmd config owes h
      → Ensures
          (λ h'. Sent reply cmd config owes h' × IsReady reply h')
          (wait_writable fuel reply h)
  unfolding wait_writable
  wait_writable-Ensures zero k cmd config owes h lt room s = absurd (omega arith)
  wait_writable-Ensures (suc fuel) zero cmd config owes h lt room s =
      rw room (polled_once cmd config owes h s, (refl, room))
  wait_writable-Ensures (suc fuel) (suc k) cmd config owes h lt room s =
      elim (Bool-cases (input_full (reply h status_port % 2 ^ 8))) [
        | inl full ↦ rw full (
            wait_writable-Ensures fuel k cmd config owes (read status_port ∷ h) (omega arith) room
              (polled_once cmd config owes h s))
        | inr free ↦ rw free (polled_once cmd config owes h s, (refl, free))
      ]

  pub wait_readable-Ensures :
      (fuel k cmd : ℕ) (config : Option ℕ) (owes : ℕ) (h : History)
      → k < fuel
      → output_full (reply (polls k h) status_port % 2 ^ 8) ≡ true
      → Sent reply cmd config owes h
      → Ensures (Sent reply cmd config owes) (wait_readable fuel reply h)
  unfolding wait_readable
  wait_readable-Ensures zero k cmd config owes h lt there s = absurd (omega arith)
  wait_readable-Ensures (suc fuel) zero cmd config owes h lt there s =
      rw there (polled_once cmd config owes h s)
  wait_readable-Ensures (suc fuel) (suc k) cmd config owes h lt there s =
      elim (Bool-cases (output_full (reply h status_port % 2 ^ 8))) [
        | inl now ↦ rw now (polled_once cmd config owes h s)
        | inr later ↦ rw later (
            wait_readable-Ensures fuel k cmd config owes (read status_port ∷ h) (omega arith) there
              (polled_once cmd config owes h s))
      ]

  -- The four kinds of events.
  pub Sent-command :
      (cmd cmd' : ℕ) (config : Option ℕ) (owes : ℕ) (h : History)
      → Sent reply cmd config owes h
      → Sent reply cmd' config (owes + answers cmd') (out cmd_port cmd' h)
  unfolding last_command configuration owed
  Sent-command cmd cmd' config owes h s = record {
    polled = ((λ e. absurd (omega arith)), s.polled);
    command = refl;
    configured = s.configured;
    owing = ap (λ n. n + answers cmd') s.owing;
  }

  pub Sent-answer :
      (cmd : ℕ) (config : Option ℕ) (owes : ℕ) (h : History)
      → Sent reply cmd config owes h
      → Sent reply cmd config (owes - 1) (read data_port ∷ h)
  unfolding last_command configuration owed
  Sent-answer cmd config owes h s = record {
    polled = s.polled;
    command = s.command;
    configured = s.configured;
    owing = ap (λ n. n - 1) s.owing;
  }

  pub Sent-config :
      (val : ℕ) (config : Option ℕ) (owes : ℕ) (h : History)
      → Sent reply 0x60 config owes h
      → IsReady reply h
      → Sent reply 0x60 (some val) owes (out data_port val h)
  unfolding last_command configuration owed
  Sent-config val config owes h s ready = record {
    polled = ((λ e. ready), s.polled);
    command = s.command;
    configured = rw s.command refl;
    owing = rw s.command s.owing;
  }

  pub Sent-reset :
      (cmd : ℕ) (config : Option ℕ) (owes : ℕ) (h : History)
      → Sent reply cmd config owes h
      → IsReady reply h
      → (cmd == 0x60) ≡ false
      → Sent reply cmd config (owes + 2) (out data_port 0xFF h)
  unfolding last_command configuration owed
  Sent-reset cmd config owes h s ready other = record {
    polled = ((λ e. ready), s.polled);
    command = s.command;
    configured = rw s.command (rw other s.configured);
    owing = rw s.command (rw other (ap (λ n. n + 2) s.owing));
  }
