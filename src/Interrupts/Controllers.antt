-- ===== src/Interrupts/Controllers.antt =====
-- What the interrupt controllers hold after the writes of src/arch/x86_64/interrupts.c: IRQ_set_mask,
-- IRQ_clear_mask and PIC_init at the ports do to the masks what they do in the model without ports.
use marimba.Base.{
  ℕ, zero, suc, ◌+◌, ◌-◌, ◌/◌, ◌%◌, ◌^◌, ◌≤◌, ◌<◌, ◌≡◌, refl, ap, ◌∙◌, inl, inr, true, false, [],
  ◌∷◌, arith, ltb, ◌==◌, ==_iff, if◌then◌else◌, Bool-cases, bit_and, bit_or,
}
use marimba.Io.{wrote, read, History, Reply, out}
use marimba.Interrupts.{
  PicMasks, line_bit, irq_set_mask, irq_clear_mask, pic_init_masks, mask_lines,
}
use marimba.Base.Bytes.{bit_or_small}
use marimba.Interrupts.Masks.{IsValid}
use marimba.Interrupts.Pic.{
  pic_master_command, pic_master_data, pic_slave_command, pic_slave_data, set_mask, clear_mask,
  set_masks, pic_set_up, pic_init,
}

-- A controller, after all that was written to its two ports: a command with bit 4 set starts it anew and makes the
-- next three bytes of data set it up, of which the first one is its base; another byte of data is its mask.
pub record Controller : Type 0 where
  pub due : ℕ
  pub base : ℕ
  pub mask : ℕ

abbrev pub with_data : ℕ → Controller → Controller
with_data v c =
    if c.due == 0
    then record c { mask = v }
    else record c { due = c.due - 1; base = if c.due == 3 then v else c.base }

unfoldable pub controller : (command port : ℕ) → History → Controller
controller command port [] = record { due = 0; base = 0; mask = 0 }
controller command port (read p ∷ h) = controller command port h
controller command port (wrote p v ∷ h) =
    let c = controller command port h in
    if p == command
    then (if v / 2 ^ 4 % 2 == 1 then record c { due = 3; mask = 0 } else c)
    else if p == port
    then with_data v c
    else c

abbrev pub master : History → Controller
master h = controller pic_master_command pic_master_data h

abbrev pub slave : History → Controller
slave h = controller pic_slave_command pic_slave_data h

-- Reading the data port of a controller that is set up gives its mask.
pub record IsPic (reply : Reply) : Type 0 where
  pub master_mask :
      (h : History) → (master h).due ≡ 0 → reply h pic_master_data % 2 ^ 8 ≡ (master h).mask % 2 ^ 8
  pub slave_mask :
      (h : History) → (slave h).due ≡ 0 → reply h pic_slave_data % 2 ^ 8 ≡ (slave h).mask % 2 ^ 8

-- Both controllers are set up, with the interrupts from 0x20 and 0x28 on, and hold the masks.
pub record Shows (masks : PicMasks) (h : History) : Type 0 where
  pub valid : IsValid masks
  pub master_ready : (master h).due ≡ 0
  pub slave_ready : (slave h).due ≡ 0
  pub master_base : (master h).base ≡ 0x20
  pub slave_base : (slave h).base ≡ 0x28
  pub master_mask : (master h).mask ≡ masks.master
  pub slave_mask : (slave h).mask ≡ masks.slave

write-master :
    (v : ℕ) (masks : PicMasks) (h : History)
    → v < 256
    → Shows masks h
    → Shows (record masks { master = v }) (out pic_master_data v (read pic_master_data ∷ h))
unfolding controller
write-master v masks h small s =
    let ready : ((master h).due == 0) ≡ true = (==_iff _ 0).1 s.master_ready in
    record {
      valid = record { master_byte = small; slave_byte = s.valid.slave_byte };
      master_ready = rw ready s.master_ready;
      slave_ready = s.slave_ready;
      master_base = rw ready s.master_base;
      slave_base = s.slave_base;
      master_mask = rw ready refl;
      slave_mask = s.slave_mask;
    }

write-slave :
    (v : ℕ) (masks : PicMasks) (h : History)
    → v < 256
    → Shows masks h
    → Shows (record masks { slave = v }) (out pic_slave_data v (read pic_slave_data ∷ h))
unfolding controller
write-slave v masks h small s =
    let ready : ((slave h).due == 0) ≡ true = (==_iff _ 0).1 s.slave_ready in
    record {
      valid = record { master_byte = s.valid.master_byte; slave_byte = small };
      master_ready = s.master_ready;
      slave_ready = rw ready s.slave_ready;
      master_base = s.master_base;
      slave_base = rw ready s.slave_base;
      master_mask = s.master_mask;
      slave_mask = rw ready refl;
    }

-- The masks that the data ports show at the start.
abbrev pub first_masks : Reply → History → PicMasks
first_masks reply h = record {
  master = reply h pic_master_data % 2 ^ 8;
  slave = reply (read pic_master_data ∷ h) pic_slave_data % 2 ^ 8;
}

module _ (reply : Reply) (pic : IsPic reply) where
  read-master :
      (masks : PicMasks) (h : History)
      → Shows masks h
      → reply h pic_master_data % 2 ^ 8 ≡ masks.master
  read-master masks h s =
      pic.master_mask h s.master_ready
      ∙ ap (λ v. v % 2 ^ 8) s.master_mask
      ∙ omega (arith, s.valid.master_byte)

  read-slave :
      (masks : PicMasks) (h : History)
      → Shows masks h
      → reply h pic_slave_data % 2 ^ 8 ≡ masks.slave
  read-slave masks h s =
      pic.slave_mask h s.slave_ready
      ∙ ap (λ v. v % 2 ^ 8) s.slave_mask
      ∙ omega (arith, s.valid.slave_byte)

  -- IRQ_set_mask at the ports, for one of the sixteen lines.
  pub set_mask-Shows :
      (irq : ℕ) (masks : PicMasks) (h : History)
      → 0x20 ≤ irq
      → irq < 0x30
      → Shows masks h
      → Shows (irq_set_mask irq masks) (set_mask reply irq h)
  unfolding set_mask irq_set_mask
  set_mask-Shows irq masks h lo hi s =
      let below : ltb irq 0x20 ≡ false = ground arith in
      let above : ltb 0x2F (irq - 0x20) ≡ false = ground arith in
      let low = bit_or_small masks.master (irq - 0x20) s.valid.master_byte in
      let high = bit_or_small masks.slave (irq - 0x20 - 8) s.valid.slave_byte in
      elim (Bool-cases (ltb (irq - 0x20) 8)) [
        | inl first ↦
            rw (below, above, first, read-master masks h s)
              (write-master (bit_or masks.master (line_bit (irq - 0x20))) masks h
                (low (ground (arith, first))).0 s)
        | inr second ↦
            rw (below, above, second, read-slave masks h s)
              (write-slave (bit_or masks.slave (line_bit (irq - 0x20 - 8))) masks h
                (high (omega arith)).0 s)
      ]

  -- IRQ_clear_mask at the ports.
  pub clear_mask-Shows :
      (irq : ℕ) (masks : PicMasks) (h : History)
      → 0x20 ≤ irq
      → irq < 0x30
      → Shows masks h
      → Shows (irq_clear_mask irq masks) (clear_mask reply irq h)
  unfolding clear_mask irq_clear_mask
  clear_mask-Shows irq masks h lo hi s =
      let below : ltb irq 0x20 ≡ false = ground arith in
      let above : ltb 0x2F (irq - 0x20) ≡ false = ground arith in
      let low = bit_or_small masks.master (irq - 0x20) s.valid.master_byte in
      let high = bit_or_small masks.slave (irq - 0x20 - 8) s.valid.slave_byte in
      elim (Bool-cases (ltb (irq - 0x20) 8)) [
        | inl first ↦
            rw (below, above, first, read-master masks h s)
              (write-master (bit_and masks.master (255 - line_bit (irq - 0x20))) masks h
                (low (ground (arith, first))).1 s)
        | inr second ↦
            rw (below, above, second, read-slave masks h s)
              (write-slave (bit_and masks.slave (255 - line_bit (irq - 0x20 - 8))) masks h
                (high (omega arith)).1 s)
      ]

  set_masks-Shows :
      (n i : ℕ) (masks : PicMasks) (h : History)
      → i + n ≤ 16
      → Shows masks h
      → Shows (mask_lines n i masks) (set_masks reply n i h)
  unfolding set_masks mask_lines
  set_masks-Shows zero i masks h small s = s
  set_masks-Shows (suc n) i masks h small s = elim (Bool-cases (i == 2)) [
    | inl cascade ↦ rw cascade (set_masks-Shows n (i + 1) masks h (omega (arith, small)) s)
    | inr other ↦ rw other (
        set_masks-Shows n (i + 1) (irq_set_mask (i + 0x20) masks) (set_mask reply (i + 0x20) h)
          (omega (arith, small))
          (set_mask-Shows (i + 0x20) masks h (omega arith) (omega (arith, small)) s))
  ]

  pic_set_up-Shows : (h : History) → Shows (first_masks reply h) (pic_set_up reply h)
  unfolding pic_set_up controller
  pic_set_up-Shows h = record {
    valid = record { master_byte = omega arith; slave_byte = omega arith };
    master_ready = refl;
    slave_ready = refl;
    master_base = refl;
    slave_base = refl;
    master_mask = refl;
    slave_mask = refl;
  }

  -- Behind PIC_init at the ports, whatever was done there before, both controllers are set up, with the interrupts from
  -- 0x20 and 0x28 on, and hold the masks that the model without ports makes of the masks at the start.
  pub pic_init-Shows :
      (h : History) → Shows (pic_init_masks (first_masks reply h)) (pic_init reply h)
  unfolding pic_init pic_init_masks
  pic_init-Shows h =
      set_masks-Shows 16 0 (first_masks reply h) (pic_set_up reply h) (omega arith)
        (pic_set_up-Shows h)
