-- ===== src/Ps2/Setup.antt =====
-- ps2_init of src/drivers/keyboard/ps2.c at a controller that answers: that it ends, that it writes to the
-- data port only when the controller can take a byte, and the configuration that it leaves.
use marimba.Base.{
  subst, ℕ, ◌+◌, ◌-◌, ◌≤◌, ◌<◌, ◌≡◌, refl, Bool, true, false, ◌&&◌, Option, some, ◌∷◌, arith, ◌==◌,
}
use marimba.Base.Results.{◌>>=◌, Ensures, Ensures-bind, Ensures_mono}
use marimba.Base.Bytes.{bit, passes, at_passes}
use marimba.Io.{read, History, Reply, out}
use marimba.Ps2.Controller.{
  data_port, cmd_port, wait_writable, wait_readable, read_cmd, write_cmd, write_data_p1,
  read_data_p1, new_config, set_up,
}
use marimba.Ps2.Polling.{
  last_command, configuration, owed, answers, IsResponsive, IsReady, IsPolled, Sent,
  wait_writable-Ensures, wait_readable-Ensures, Sent-command, Sent-answer, Sent-config, Sent-reset,
}

module _ (fuel : ℕ) (reply : Reply) (r : IsResponsive fuel reply) where
  writable-Ensures :
      (cmd : ℕ) (config : Option ℕ) (owes : ℕ) (h : History)
      → Sent reply cmd config owes h
      → Ensures
          (λ h'. Sent reply cmd config owes h' × IsReady reply h')
          (wait_writable fuel reply h)
  writable-Ensures cmd config owes h s =
      let (k, lt, room) = r.writable h in
      wait_writable-Ensures reply fuel k cmd config owes h lt room s

  readable-Ensures :
      (cmd : ℕ) (config : Option ℕ) (owes : ℕ) (h : History)
      → Sent reply cmd config owes h
      → 0 < owes
      → Ensures (Sent reply cmd config owes) (wait_readable fuel reply h)
  readable-Ensures cmd config owes h s some_owed =
      let (k, lt, there) = r.readable h (rw s.owing some_owed) in
      wait_readable-Ensures reply fuel k cmd config owes h lt there s

  -- A byte, and what is left.
  abbrev Answer : (cmd : ℕ) → Option ℕ → ℕ × History → Type 0
  Answer cmd config (a, h) = (a < 256) × Sent reply cmd config 0 h

  read_cmd-Ensures :
      (cmd cmd' : ℕ) (config : Option ℕ) (h : History)
      → Sent reply cmd config 0 h
      → answers cmd' ≡ 1
      → Ensures (Answer cmd' config) (read_cmd fuel reply cmd' h)
  unfolding read_cmd
  read_cmd-Ensures cmd cmd' config h s one =
      Ensures-bind _ (Answer cmd' config) (wait_writable fuel reply h) _
        (writable-Ensures cmd config 0 h s)
        (λ h1 s1.
          let asked : Sent reply cmd' config 1 (out cmd_port cmd' h1) =
            subst (λ n. Sent reply cmd' config n (out cmd_port cmd' h1)) (omega (arith, one))
              (Sent-command reply cmd cmd' config 0 h1 s1.0) in
          Ensures-bind _ (Answer cmd' config) (wait_readable fuel reply (out cmd_port cmd' h1)) _
            (readable-Ensures cmd' config 1 (out cmd_port cmd' h1) asked (omega arith))
            (λ h2 s2. (omega arith, Sent-answer reply cmd' config 1 h2 s2)))

  write_config-Ensures :
      (cmd val : ℕ) (config : Option ℕ) (h : History)
      → Sent reply cmd config 0 h
      → Ensures (Sent reply 0x60 (some val) 0) (write_cmd fuel reply 0x60 val h)
  unfolding write_cmd
  write_config-Ensures cmd val config h s =
      Ensures-bind _ (Sent reply 0x60 (some val) 0) (wait_writable fuel reply h) _
        (writable-Ensures cmd config 0 h s)
        (λ h1 s1.
          Ensures-bind _ (Sent reply 0x60 (some val) 0)
            (wait_writable fuel reply (out cmd_port 0x60 h1)) _
            (writable-Ensures 0x60 config 0 (out cmd_port 0x60 h1)
              (Sent-command reply cmd 0x60 config 0 h1 s1.0))
            (λ h2 s2. Sent-config reply val config 0 h2 s2.0 s2.1))

  write_reset-Ensures :
      (cmd : ℕ) (config : Option ℕ) (h : History)
      → Sent reply cmd config 0 h
      → (cmd == 0x60) ≡ false
      → Ensures (Sent reply cmd config 2) (write_data_p1 fuel reply 0xFF h)
  unfolding write_data_p1
  write_reset-Ensures cmd config h s other =
      Ensures-bind _ (Sent reply cmd config 2) (wait_writable fuel reply h) _
        (writable-Ensures cmd config 0 h s)
        (λ h1 s1. Sent-reset reply cmd config 0 h1 s1.0 s1.1 other)

  read_data_p1-Ensures :
      (cmd : ℕ) (config : Option ℕ) (owes : ℕ) (h : History)
      → Sent reply cmd config owes h
      → 0 < owes
      → Ensures (λ a. Sent reply cmd config (owes - 1) a.1) (read_data_p1 fuel reply h)
  unfolding read_data_p1
  read_data_p1-Ensures cmd config owes h s some_owed =
      Ensures-bind _ (λ a. Sent reply cmd config (owes - 1) a.1) (wait_readable fuel reply h) _
        (readable-Ensures cmd config owes h s some_owed)
        (λ h1 s1. Sent-answer reply cmd config owes h1 s1)

  -- What set_up leaves.
  pub IsSetUp : History → Type 0
  IsSetUp h = (c : ℕ) × (c < 256) × Sent reply 0xAE (some (new_config c)) 0 h

  -- From the enabling of the port on.
  reset-IsSetUp :
      (c : ℕ) (h : History)
      → c < 256
      → Sent reply 0xAB (some (new_config c)) 0 h
      → Ensures IsSetUp (do
        h6 ← write_data_p1 fuel reply 0xFF (out cmd_port 0xAE h)
        (acknowledged, h7) ← read_data_p1 fuel reply h6
        (reset, h8) ← read_data_p1 fuel reply h7
        some h8)
  unfolding IsSetUp
  reset-IsSetUp c h small s =
      let config = some (new_config c) in
      let enabled = Sent-command reply 0xAB 0xAE config 0 h s in
      Ensures-bind _ IsSetUp (write_data_p1 fuel reply 0xFF (out cmd_port 0xAE h)) _
        (write_reset-Ensures 0xAE config (out cmd_port 0xAE h) enabled refl)
        (λ h6 s6.
          Ensures-bind _ IsSetUp (read_data_p1 fuel reply h6) _
            (read_data_p1-Ensures 0xAE config 2 h6 s6 (omega arith))
            (λ a7 s7.
              Ensures-bind _ IsSetUp (read_data_p1 fuel reply a7.1) _
                (read_data_p1-Ensures 0xAE config 1 a7.1 s7 (omega arith))
                (λ a8 s8. (c, small, s8))))

  -- From the first configuration on.
  configured-IsSetUp :
      (c : ℕ) (old : Option ℕ) (h : History)
      → c < 256
      → Sent reply 0x20 old 0 h
      → Ensures IsSetUp (do
        h2 ← write_cmd fuel reply 0x60 (new_config c) h
        (self_test, h3) ← read_cmd fuel reply 0xAA h2
        h4 ← write_cmd fuel reply 0x60 (new_config c) h3
        (interface_test, h5) ← read_cmd fuel reply 0xAB h4
        h6 ← write_data_p1 fuel reply 0xFF (out cmd_port 0xAE h5)
        (acknowledged, h7) ← read_data_p1 fuel reply h6
        (reset, h8) ← read_data_p1 fuel reply h7
        some h8)
  configured-IsSetUp c old h small s =
      let val = new_config c in
      let config = some val in
      Ensures-bind _ IsSetUp (write_cmd fuel reply 0x60 val h) _
        (write_config-Ensures 0x20 val old h s)
        (λ h2 s2.
          Ensures-bind _ IsSetUp (read_cmd fuel reply 0xAA h2) _
            (read_cmd-Ensures 0x60 0xAA config h2 s2 refl)
            (λ a3 s3.
              Ensures-bind _ IsSetUp (write_cmd fuel reply 0x60 val a3.1) _
                (write_config-Ensures 0xAA val config a3.1 s3.1)
                (λ h4 s4.
                  Ensures-bind _ IsSetUp (read_cmd fuel reply 0xAB h4) _
                    (read_cmd-Ensures 0x60 0xAB config h4 s4 refl)
                    (λ a5 s5. reset-IsSetUp c a5.1 small s5.1))))

-- The bits of the configuration.
config_test : ℕ → Bool
config_test c =
    (bit (new_config c) 0 == 1) && ((bit (new_config c) 1 == 0) && (bit (new_config c) 6 == 0))

config_table : passes config_test 256 ≡ true
unfolding passes config_test
config_table = refl

new_config_bits :
    (c : ℕ)
    → c < 256
    → (bit (new_config c) 0 ≡ 1) × (bit (new_config c) 1 ≡ 0) × (bit (new_config c) 6 ≡ 0)
unfolding config_test
new_config_bits c small =
    let all = at_passes config_test 256 config_table c small in
    (ground arith, ground arith, ground arith)

module _ (fuel : ℕ) (reply : Reply) (r : IsResponsive fuel reply) where
  -- Port 1 and port 2 off, and what was left to read.
  flushed : History → History
  flushed h = read data_port ∷ out cmd_port 0xA7 (out cmd_port 0xAD h)

  flushed-Sent :
      (h : History)
      → IsPolled reply h
      → owed h ≤ 1
      → Sent reply 0xA7 (configuration h) 0 (flushed h)
  unfolding flushed
  flushed-Sent h polled few =
      let before : Sent reply (last_command h) (configuration h) (owed h) h = record {
        polled = polled;
        command = refl;
        configured = refl;
        owing = refl;
      } in
      let off = Sent-command reply (last_command h) 0xAD (configuration h) (owed h) h before in
      let both =
        Sent-command reply 0xAD 0xA7 (configuration h) (owed h + 0) (out cmd_port 0xAD h) off in
      subst (λ n. Sent reply 0xA7 (configuration h) n (flushed h)) (omega (arith, few))
        (Sent-answer reply 0xA7 (configuration h) (owed h + 0 + 0)
          (out cmd_port 0xA7 (out cmd_port 0xAD h)) both)

  pub set_up-IsSetUp :
      (h : History)
      → IsPolled reply h
      → owed h ≤ 1
      → Ensures (IsSetUp fuel reply r) (set_up fuel reply h)
  unfolding set_up flushed
  set_up-IsSetUp h polled few =
      Ensures-bind _ (IsSetUp fuel reply r) (read_cmd fuel reply 0x20 (flushed h)) _
        (read_cmd-Ensures fuel reply r 0xA7 0x20 (configuration h) (flushed h)
          (flushed-Sent h polled few) refl)
        (λ a s. configured-IsSetUp fuel reply r a.0 (configuration h) a.1 s.0 s.1)

-- The configuration is written, and how.
abbrev pub IsConfigured : Reply → History → Type 0
IsConfigured reply h =
    IsPolled reply h
    × ((c : ℕ) × (configuration h ≡ some c) × (bit c 0 ≡ 1) × (bit c 1 ≡ 0) × (bit c 6 ≡ 0))

pub IsSetUp-IsConfigured :
    (fuel : ℕ) (reply : Reply) (r : IsResponsive fuel reply) (h : History)
    → IsSetUp fuel reply r h
    → IsConfigured reply h × (owed h ≡ 0)
unfolding IsSetUp
IsSetUp-IsConfigured fuel reply r h (c, small, s) =
    let (b0, b1, b6) = new_config_bits c small in
    ((s.polled, (new_config c, s.configured, b0, b1, b6)), s.owing)

-- At a controller that answers in time, the port sequence of ps2_init ends. Each byte on the data port
-- was written right after the status showed room for it, if that was so before; and the
-- last configuration has interrupts of port 1 on, those of port 2 off, and no translation.
pub set_up-Ensures :
    (fuel : ℕ) (reply : Reply) (h : History)
    → IsResponsive fuel reply
    → IsPolled reply h
    → owed h ≤ 1
    → Ensures
        (λ h'.
          IsPolled reply h'
          × ((c : ℕ) × (configuration h' ≡ some c) × (bit c 0 ≡ 1) × (bit c 1 ≡ 0) × (bit c 6 ≡ 0)))
        (set_up fuel reply h)
set_up-Ensures fuel reply h r polled few =
    Ensures_mono _ (IsConfigured reply) (set_up fuel reply h)
      (λ h' s. (IsSetUp-IsConfigured fuel reply r h' s).0)
      (set_up-IsSetUp fuel reply r h polled few)
