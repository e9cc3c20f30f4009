-- ===== src/Io.antt =====
-- The ports that src/arch/x86_64/io.h reads and writes. What the hardware behind them does is a
-- parameter, `Reply`: the value that a port shows after all that was read and written before.
use marimba.Base.{ℕ, ◌%◌, ◌^◌, List, [], ◌∷◌, ◌==◌, if◌then◌else◌}

pub data PortEvent : Type 0 where
  wrote : (port value : ℕ) → PortEvent
  read : (port : ℕ) → PortEvent

-- The newest event stands first.
abbrev pub History : Type 0
History = List PortEvent

abbrev pub Reply : Type 0
Reply = History → ℕ → ℕ

abbrev pub inb : Reply → ℕ → History → ℕ × History
inb reply port h = (reply h port % 2 ^ 8, read port ∷ h)

abbrev pub inw : Reply → ℕ → History → ℕ × History
inw reply port h = (reply h port % 2 ^ 16, read port ∷ h)

abbrev pub inl : Reply → ℕ → History → ℕ × History
inl reply port h = (reply h port % 2 ^ 32, read port ∷ h)

abbrev pub out : (port value : ℕ) → History → History
out port value h = wrote port value ∷ h

-- The values written to a port, the newest first.
unfoldable pub written : ℕ → History → List ℕ
written port [] = []
written port (read p ∷ h) = written port h
written port (wrote p v ∷ h) = if p == port then v ∷ written port h else written port h
