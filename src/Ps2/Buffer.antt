-- ===== src/Ps2/Buffer.antt =====
-- Each reader of the keyboard driver sees the typed text in order, as long as fewer than 128
-- characters wait for it.
use marimba.Base.Window.{window, length-window, window-set}
use marimba.Ps2.Layout.{us_char}
use marimba.Ps2.{
  Ps2Device, Ps2User, blocked, returned, producer_add, read_bytes, ps2_read, ps2_isr,
  translate_scan_code, KeyRow, is_shift,
}
use marimba.Ps2.Decode.{KeyEvent, press, release, codes}
use marimba.Base.{
  ℕ, zero, suc, ◌+◌, ◌-◌, ◌%◌, ◌<◌, ◌≡◌, ◌≢◌, refl, ap, ◌⊎◌, inl, inr, Bool, true, false, Option,
  none, some, List, [], ◌∷◌, ◌++◌, arith, ltb, ◌==◌, if◌then◌else◌, Bool-cases, length, length-set,
  get_or,
}

pub record IsValid (dev : Ps2Device) : Type 0 where
  pub size : length dev.buffer ≡ 128
  pub in_range : dev.pos < 128

-- How many characters wait for a reader, and the characters, the oldest first.
abbrev pub waiting : Ps2Device → Ps2User → ℕ
waiting dev user = (dev.pos + 128 - user.pos) % 128

abbrev pub contents : Ps2Device → Ps2User → List ℕ
contents dev user = window 128 dev.buffer user.pos (waiting dev user)

abbrev pub take : ℕ → List ℕ → List ℕ
take zero xs = []
take (suc n) [] = []
take (suc n) (x ∷ xs) = x ∷ take n xs

abbrev pub drop : ℕ → List ℕ → List ℕ
drop zero xs = xs
drop (suc n) [] = []
drop (suc n) (x ∷ xs) = drop n xs

-- A character added while fewer than 127 wait for a reader is behind those that wait; the 128th
-- that a reader has not taken makes all of them vanish for it.
pub producer_add-contents :
    (dev : Ps2Device) (user : Ps2User) (c : ℕ)
    → IsValid dev
    → user.pos < 128
    → let dev' = producer_add c dev in
      IsValid dev'
      × (contents dev' user
          ≡ (if ltb (length (contents dev user)) 127 then contents dev user ++ c ∷ [] else []))
unfolding producer_add
producer_add-contents dev user c v h = ground (
  arith,
  length-window 128 dev.buffer user.pos (waiting dev user),
  length-set dev.buffer dev.pos c,
  window-set 128 dev.buffer c (waiting dev user) user.pos dev.pos,
)

window-suc :
    (buf : List ℕ) (h n : ℕ)
    → 0 < n
    → window 128 buf h n ≡ get_or buf h 0 ∷ window 128 buf ((h + 1) % 128) (n - 1)
window-suc buf h zero p = absurd (omega arith)
window-suc buf h (suc n) p = ap (λ k. window 128 buf h (suc k)) (omega arith)

window-ne-nil : (buf : List ℕ) (h n : ℕ) → 0 < n → window 128 buf h n ≢ []
window-ne-nil buf h zero p = absurd (omega arith)
window-ne-nil buf h (suc n) p = ground arith

record Took (dev : Ps2Device) (user : Ps2User) (len : ℕ) (r : List ℕ × Ps2User) : Type 0 where
  taken : r.0 ≡ take len (contents dev user)
  left : contents dev r.1 ≡ drop len (contents dev user)
  in_range : r.1.pos < 128

read_bytes-Took :
    (dev : Ps2Device) (user : Ps2User) (len : ℕ)
    → IsValid dev
    → user.pos < 128
    → Took dev user len (read_bytes dev user len)
unfolding read_bytes
read_bytes-Took dev user zero v h = record { taken = refl; left = refl; in_range = h }
read_bytes-Took dev user (suc len) v h = elim (Bool-cases (user.pos == dev.pos)) [
  | inl none_wait ↦
      let empty : waiting dev user ≡ 0 = ground arith in
      rw none_wait (record { taken = rw empty refl; left = rw empty refl; in_range = h })
  | inr some_wait ↦
      let user' : Ps2User = record { pos = (user.pos + 1) % 128 } in
      let rest = read_bytes-Took dev user' len v (omega arith) in
      let fewer : waiting dev user' ≡ waiting dev user - 1 = ground arith in
      let first = window-suc dev.buffer user.pos (waiting dev user) (ground arith) in
      rw some_wait (record {
        taken =
            rw (first, ← fewer) (ap (λ (t : List ℕ). get_or dev.buffer user.pos 0 ∷ t) rest.taken);
        left = rw (first, ← fewer) rest.left;
        in_range = rest.in_range;
      })
]

-- ps2_read blocks its process, behind those that already wait, exactly when nothing waits for the
-- reader; otherwise it returns the oldest `len` waiting characters, or all of them if they are
-- fewer, and leaves the others for the next call.
pub ps2_read_lem :
    (dev : Ps2Device) (user : Ps2User) (len curr : ℕ)
    → IsValid dev
    → user.pos < 128
    → ((contents dev user ≡ [])
        × (ps2_read dev user len curr
            ≡ blocked (record dev { blocked_procs = dev.blocked_procs ++ curr ∷ [] })))
      ⊎ ((contents dev user ≢ [])
          × (user' : Ps2User) × (ps2_read dev user len curr
              ≡ returned (take len (contents dev user)) user')
          × (contents dev user' ≡ drop len (contents dev user)))
unfolding ps2_read
ps2_read_lem dev user len curr v h = elim (Bool-cases (user.pos == dev.pos)) [
  | inl none_wait ↦
      let empty : waiting dev user ≡ 0 = ground arith in inl (rw empty refl, rw none_wait refl)
  | inr some_wait ↦
      let took = read_bytes-Took dev user len v h in
      let r = read_bytes dev user len in
      inr (
        window-ne-nil dev.buffer user.pos (waiting dev user) (ground arith),
        r.1,
        rw (some_wait, took.taken) refl,
        took.left,
      )
]

-- Every row of the key table has characters.
abbrev NonZero : List KeyRow → Type 0
NonZero [] = Unit
NonZero ((c, upper, lower) ∷ rows) = (upper ≢ 0) × (lower ≢ 0) × NonZero rows

-- The text of a row of key events by the driver's table, with shift held or not at its start.
abbrev coded_text : Bool → List KeyEvent → List ℕ
coded_text shift [] = []
coded_text shift (press k ∷ es) =
    if is_shift k then coded_text true es else translate_scan_code shift k ∷ coded_text shift es
coded_text shift (release k ∷ es) = coded_text (if is_shift k then false else shift) es

-- One interrupt for each event, with that event's bytes in the controller.
pub type_events : Ps2Device → List KeyEvent → Option Ps2Device
type_events dev [] = some dev
type_events dev (e ∷ es) = elim (ps2_isr dev (codes e)) [
  | none ↦ none
  | some r ↦ type_events r.dev es
]

-- A reader at `pos < 128` of a device that came from `dev` by typing `t`.
pub record Typed (dev : Ps2Device) (user : Ps2User) (t : List ℕ) (dev' : Ps2Device) : Type 0 where
  pub valid : IsValid dev'
  pub queued : contents dev' user ≡ contents dev user ++ t

-- What one event types.
abbrev text_of : Bool → KeyEvent → List ℕ
text_of shift (press k) = if is_shift k then [] else translate_scan_code shift k ∷ []
text_of shift (release k) = []

-- The text that a row of key events types on a US keyboard.
abbrev pub text : Bool → List KeyEvent → List ℕ
text shift [] = []
text shift (press k ∷ es) = if is_shift k then text true es else us_char shift k ∷ text shift es
text shift (release k ∷ es) = text (if is_shift k then false else shift) es
