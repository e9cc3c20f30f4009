-- ===== src/Interrupts/Masks.antt =====
-- Masking one line of the interrupt controllers leaves the fifteen others alone.
use marimba.Base.Bytes.{bit, bit-bit_or, bit-bit_and, bit_or_small}
use marimba.Interrupts.{PicMasks, irq_set_mask, irq_clear_mask, pic_init_masks, mask_lines}
use marimba.Base.{
  Bool-cases, inl, inr, zero, suc, ◌+◌, leb, not, ◌&&◌, ◌||◌, Bool, true, false, ap, sym, refl, ◌∙◌,
  ℕ, ◌-◌, ◌≤◌, ◌<◌, ◌≡◌, arith, ltb, ◌==◌, if◌then◌else◌,
}

pub record IsValid (pic : PicMasks) : Type 0 where
  pub master_byte : pic.master < 256
  pub slave_byte : pic.slave < 256

-- 1 if the line is masked: lines 0 to 7 are the master's, 8 to 15 the slave's.
abbrev pub masked : PicMasks → ℕ → ℕ
masked pic line = if ltb line 8 then bit pic.master line else bit pic.slave (line - 8)

-- IRQ_set_mask for one of the sixteen lines masks that line and no other.
pub masked-irq_set_mask :
    (pic : PicMasks) (irq line : ℕ)
    → IsValid pic
    → 0x20 ≤ irq
    → irq < 0x30
    → line < 16
    → masked (irq_set_mask irq pic) line ≡ (if line == irq - 0x20 then 1 else masked pic line)
unfolding irq_set_mask
masked-irq_set_mask pic irq line v lo hi h = ground (
  arith,
  bit-bit_or pic.master (irq - 0x20) line,
  bit-bit_or pic.slave (irq - 0x20 - 8) (line - 8),
)

-- IRQ_clear_mask for one of the sixteen lines unmasks that line and no other.
pub masked-irq_clear_mask :
    (pic : PicMasks) (irq line : ℕ)
    → IsValid pic
    → 0x20 ≤ irq
    → irq < 0x30
    → line < 16
    → masked (irq_clear_mask irq pic) line ≡ (if line == irq - 0x20 then 0 else masked pic line)
unfolding irq_clear_mask
masked-irq_clear_mask pic irq line v lo hi h = ground (
  arith,
  bit-bit_and pic.master (irq - 0x20) line,
  bit-bit_and pic.slave (irq - 0x20 - 8) (line - 8),
)

-- The masks stay two bytes.
pub irq_set_mask-IsValid :
    (pic : PicMasks) (irq : ℕ)
    → IsValid pic
    → 0x20 ≤ irq
    → irq < 0x30
    → IsValid (irq_set_mask irq pic)
unfolding irq_set_mask
irq_set_mask-IsValid pic irq v lo hi =
    let master = bit_or_small pic.master (irq - 0x20) v.master_byte in
    let slave = bit_or_small pic.slave (irq - 0x20 - 8) v.slave_byte in
    record { master_byte = ground arith; slave_byte = ground arith }

pub irq_clear_mask-IsValid :
    (pic : PicMasks) (irq : ℕ)
    → IsValid pic
    → 0x20 ≤ irq
    → irq < 0x30
    → IsValid (irq_clear_mask irq pic)
unfolding irq_clear_mask
irq_clear_mask-IsValid pic irq v lo hi =
    let master = bit_or_small pic.master (irq - 0x20) v.master_byte in
    let slave = bit_or_small pic.slave (irq - 0x20 - 8) v.slave_byte in
    record { master_byte = ground arith; slave_byte = ground arith }

if-or : (a b : Bool) (x : ℕ) → (if a then 1 else if b then 1 else x) ≡ (if a || b then 1 else x)
if-or a b x = ground arith

mask_lines_none : (i : ℕ) (pic : PicMasks) → mask_lines 0 i pic ≡ pic
unfolding mask_lines
mask_lines_none i pic = refl

mask_lines-suc :
    (n i : ℕ) (pic : PicMasks) (b : Bool)
    → (i == 2) ≡ b
    → mask_lines (suc n) i pic
      ≡ mask_lines n (i + 1) (if b then pic else irq_set_mask (i + 0x20) pic)
unfolding mask_lines
mask_lines-suc n i pic b e =
    ap (λ (t : Bool). mask_lines n (i + 1) (if t then pic else irq_set_mask (i + 0x20) pic)) e

mask_lines-masked :
    (n i line : ℕ) (pic : PicMasks)
    → i + n ≤ 16
    → line < 16
    → IsValid pic
    → masked (mask_lines n i pic) line
      ≡ (if (leb i line && ltb line (i + n)) && not (line == 2) then 1 else masked pic line)
mask_lines-masked zero i line pic small h v =
    let none_set : ((leb i line && ltb line (i + 0)) && not (line == 2)) ≡ false = ground arith in
    ap (λ (q : PicMasks). masked q line) (mask_lines_none i pic)
    ∙ ap (λ (t : Bool). if t then 1 else masked pic line) (sym none_set)
mask_lines-masked (suc n) i line pic small h v = elim (Bool-cases (i == 2)) [
  | inl cascade ↦
      let tests : ((leb (i + 1) line && ltb line (i + 1 + n)) && not (line == 2))
          ≡ ((leb i line && ltb line (i + suc n)) && not (line == 2)) =
        ground (arith, cascade) in
      rw
        (
          mask_lines-suc n i pic true cascade,
          mask_lines-masked n (i + 1) line pic (omega (arith, small)) h v,
        )
        (ap (λ (t : Bool). if t then 1 else masked pic line) tests)
  | inr other ↦
      let pic' = irq_set_mask (i + 0x20) pic in
      let rest =
        mask_lines-masked n (i + 1) line pic' (omega (arith, small)) h
          (irq_set_mask-IsValid pic (i + 0x20) v (omega arith) (omega (arith, small))) in
      let step = masked-irq_set_mask pic (i + 0x20) line v (omega arith) (omega (arith, small)) h in
      let tests : (((leb (i + 1) line && ltb line (i + 1 + n)) && not (line == 2))
            || (line == i + 0x20 - 0x20))
          ≡ ((leb i line && ltb line (i + suc n)) && not (line == 2)) =
        ground (arith, other) in
      rw (mask_lines-suc n i pic false other, rest, step)
        (if-or ((leb (i + 1) line && ltb line (i + 1 + n)) && not (line == 2))
            (line == i + 0x20 - 0x20) (masked pic line)
          ∙ ap (λ (t : Bool). if t then 1 else masked pic line) tests)
]

if_two :
    (line : ℕ) (f : ℕ → ℕ)
    → (if not (line == 2) then 1 else f line) ≡ (if line == 2 then f 2 else 1)
if_two line f = ground arith

-- PIC_init masks every line but line 2, which stays as it is.
pub masked-pic_init_masks :
    (pic : PicMasks) (line : ℕ)
    → IsValid pic
    → line < 16
    → masked (pic_init_masks pic) line ≡ (if line == 2 then masked pic 2 else 1)
unfolding pic_init_masks
masked-pic_init_masks pic line v h =
    let tests : ((leb 0 line && ltb line (0 + 16)) && not (line == 2)) ≡ not (line == 2) =
      ground (arith, h) in
    mask_lines-masked 16 0 line pic (omega arith) h v
    ∙ ap (λ (t : Bool). if t then 1 else masked pic line) tests
    ∙ if_two line (masked pic)
