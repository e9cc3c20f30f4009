-- ===== src/Ps2/Decode.antt =====
-- The decoder of the keyboard driver follows the keys as they go down and up.
use marimba.Base.{
  ◌<◌, ℕ, ◌≡◌, ◌≢◌, Bool, true, false, some, List, [], ◌∷◌, ◌++◌, arith, if◌then◌else◌,
}
use marimba.Ps2.{Ps2Device, is_shift, released_scan_code, translate_scan_code, ps2_read_char}

-- A key goes down or up. A key's code is a byte and not the release code.
pub data KeyEvent : Type 0 where
  press release : ℕ → KeyEvent

abbrev pub key_of : KeyEvent → ℕ
key_of (press k) = k
key_of (release k) = k

abbrev pub IsKeyboard : List KeyEvent → Type 0
IsKeyboard [] = Unit
IsKeyboard (e ∷ es) = ((key_of e ≢ released_scan_code) × (key_of e < 256)) × IsKeyboard es

-- The bytes that the keyboard sends for an event (scan code set 2).
abbrev pub codes : KeyEvent → List ℕ
codes (press k) = k ∷ []
codes (release k) = released_scan_code ∷ k ∷ []

-- Whether a shift key is held behind an event, and what the event types.
abbrev pub shift_after : Bool → KeyEvent → Bool
shift_after shift (press k) = if is_shift k then true else shift
shift_after shift (release k) = if is_shift k then false else shift

abbrev pub typed : Bool → KeyEvent → ℕ
typed shift (press k) = if is_shift k then 0 else translate_scan_code shift k
typed shift (release k) = 0

-- ps2_read_char takes the bytes of one event whole, whatever follows them: it returns what the
-- event types (0 for a shift key or a release), sets the shift flag to whether shift is now held,
-- and leaves the rest of the device alone.
pub ps2_read_char-codes :
    (dev : Ps2Device) (e : KeyEvent) (bytes : List ℕ)
    → key_of e ≢ released_scan_code
    → ps2_read_char dev (codes e ++ bytes)
      ≡ some (
        typed dev.shift_pressed e,
        record dev { shift_pressed = shift_after dev.shift_pressed e },
        bytes,
      )
unfolding ps2_read_char
ps2_read_char-codes dev (press k) bytes h = ground arith
ps2_read_char-codes dev (release k) bytes h = ground arith
