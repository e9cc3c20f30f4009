-- ===== src/Ps2/Sessions.antt =====
-- The openings and closings of the keyboard in src/drivers/keyboard/ps2.c, in any order: its interrupt line.
use marimba.Base.{
  ℕ, ◌+◌, ◌-◌, ◌^◌, ◌≤◌, ◌<◌, ◌≡◌, refl, ap, ◌∙◌, inl, inr, Bool, true, false, Option, none, some,
  arith, ◌==◌, if◌then◌else◌, Bool-cases,
}
use marimba.Base.Results.{Ensures, Ensures-bind, Ensures-at}
use marimba.Interrupts.Nesting.{IsConsistent}
use marimba.Ps2.Polling.{IsPolled, owed, IsResponsive}
use marimba.Ps2.Setup.{IsConfigured, set_up-IsSetUp, IsSetUp-IsConfigured}
use marimba.Interrupts.{IrqState, irq_disable, irq_enable, irq_set_handler}
use marimba.Interrupts.Masks.{
  IsValid, masked, masked-irq_set_mask, masked-irq_clear_mask, irq_set_mask-IsValid,
  irq_clear_mask-IsValid,
}
use marimba.Io.{Reply}
use marimba.Ps2.{Ps2User, ps2_open}
use marimba.Ps2.Controller.{Keyboard, keyboard_irq, set_up, ps2_init, open_device, close_device}

-- How many have the keyboard open is an `int`; line 1 is masked while that is none; and while it is
-- some the controller is configured and the handler registered. The sections of the interrupts are closed.
pub record IsTracked (reply : Reply) (isr : ℕ) (irq : IrqState) (k : Keyboard) : Type 0 where
  pub small : k.dev.num_open < 2 ^ 31
  pub masks_valid : IsValid k.masks
  pub line : masked k.masks 1 ≡ (if k.dev.num_open == 0 then 1 else 0)
  pub same_irq : k.irq ≡ irq
  pub polled : IsPolled reply k.io
  pub few : owed k.io ≤ 1
  pub configured : 0 < k.dev.num_open → IsConfigured reply k.io
  pub registered : 0 < k.dev.num_open → (k.handlers keyboard_irq).handler ≡ isr

-- What an opening leaves: one more reader, who has read all, or nothing.
abbrev pub Opened : Reply → ℕ → IrqState → Bool → Keyboard → Option Ps2User × Keyboard → Type 0
Opened reply isr irq memory k (user, k') =
    IsTracked reply isr irq k'
    × (k'.dev.num_open ≡ k.dev.num_open + (if memory then 1 else 0))
    × (user ≡ (if memory then some (record { pos = k.dev.pos }) else none))

same_sections : (irq : IrqState) → IsConsistent irq → irq_enable (irq_disable irq) ≡ irq
unfolding irq_enable irq_disable
same_sections irq c = ground arith

module _ (fuel : ℕ) (reply : Reply) (isr : ℕ) (irq : IrqState) where
  -- The device behind the call of ps2_init, if it was one.
  record Ready (k k' : Keyboard) : Type 0 where
    same_dev : k'.dev ≡ k.dev
    same_irq : k'.irq ≡ k.irq
    masks_valid : IsValid k'.masks
    line : masked k'.masks 1 ≡ 0
    few : owed k'.io ≤ 1
    configured : IsConfigured reply k'.io
    registered : (k'.handlers keyboard_irq).handler ≡ isr

  ps2_init-Ensures :
      (k : Keyboard)
      → IsResponsive fuel reply
      → IsValid k.masks
      → IsPolled reply k.io
      → owed k.io ≤ 1
      → Ensures (Ready k) (ps2_init fuel reply isr k)
  unfolding ps2_init irq_set_handler
  ps2_init-Ensures k r v polled few =
      Ensures-bind _ (Ready k) (set_up fuel reply k.io) _
        (set_up-IsSetUp fuel reply r k.io polled few)
        (λ h s.
          let done = IsSetUp-IsConfigured fuel reply r h s in
          record {
            same_dev = refl;
            same_irq = refl;
            masks_valid = irq_clear_mask-IsValid k.masks keyboard_irq v (omega arith) (omega arith);
            line =
                masked-irq_clear_mask k.masks keyboard_irq 1 v (omega arith) (omega arith)
                  (omega arith);
            few = omega (arith, done.1);
            configured = done.0;
            registered = refl;
          })

  ready :
      (k : Keyboard)
      → IsResponsive fuel reply
      → IsTracked reply isr irq k
      → let off = record k { irq = irq_disable k.irq } in
        Ensures
          (Ready off)
          (if off.dev.num_open == 0 then ps2_init fuel reply isr off else some off)
  ready k r t =
      let off = record k { irq = irq_disable k.irq } in
      elim (Bool-cases (k.dev.num_open == 0)) [
        | inl nobody ↦ rw nobody (ps2_init-Ensures off r t.masks_valid t.polled t.few)
        | inr somebody ↦ rw somebody (record {
          same_dev = refl;
          same_irq = refl;
          masks_valid = t.masks_valid;
          line = t.line ∙ rw somebody refl;
          few = t.few;
          configured = t.configured (ground arith);
          registered = t.registered (ground arith);
        })
      ]

  -- At a controller that answers in time ps2_open returns: with memory, one more has the device open, the
  -- reader is at the position of the device, the controller is configured, its line open and ps2_isr its
  -- handler; without memory nothing changes.
  pub open_device-Ensures :
      (memory : Bool) (k : Keyboard)
      → IsResponsive fuel reply
      → IsConsistent irq
      → k.dev.num_open + 1 < 2 ^ 31
      → IsTracked reply isr irq k
      → Ensures (Opened reply isr irq memory k) (open_device fuel reply isr memory k)
  unfolding open_device ps2_open
  open_device-Ensures false k r c room t = (t, omega arith, refl)
  open_device-Ensures true k r c room t =
      let off = record k { irq = irq_disable k.irq } in
      Ensures-bind _ (Opened reply isr irq true k)
        (if off.dev.num_open == 0 then ps2_init fuel reply isr off else some off) _ (ready k r t)
        (λ k' s.
          let one_more : k'.dev.num_open + 1 ≡ k.dev.num_open + 1 =
            ap (λ d. d.num_open + 1) s.same_dev in
          (
            record {
              small = omega (arith, one_more, room);
              masks_valid = s.masks_valid;
              line = ground (arith, s.line);
              same_irq =
                  ap irq_enable s.same_irq ∙ same_sections k.irq (rw t.same_irq c) ∙ t.same_irq;
              polled = s.configured.0;
              few = s.few;
              configured = (λ lt. s.configured);
              registered = (λ lt. s.registered);
            },
            one_more,
            ap (λ d. some (record { pos = d.pos })) s.same_dev,
          ))

  pub close_device-IsTracked :
      (k : Keyboard)
      → IsConsistent irq
      → 0 < k.dev.num_open
      → IsTracked reply isr irq k
      → IsTracked reply isr irq (close_device k)
        × ((close_device k).dev.num_open ≡ k.dev.num_open - 1)
  unfolding close_device
  close_device-IsTracked k c open_ t =
      let last =
        masked-irq_set_mask k.masks keyboard_irq 1 t.masks_valid (omega arith) (omega arith)
          (omega arith) in
      let valid =
        irq_set_mask-IsValid k.masks keyboard_irq t.masks_valid (omega arith) (omega arith) in
      (
        record {
          small = omega arith;
          masks_valid = ground (arith, valid, t.masks_valid);
          line = ground (arith, last, t.line);
          same_irq = same_sections k.irq (rw t.same_irq c) ∙ t.same_irq;
          polled = t.polled;
          few = t.few;
          configured = (λ lt. t.configured (omega arith));
          registered = (λ lt. t.registered (omega arith));
        },
        omega arith,
      )

  -- A run of openings, with and without memory, and of closings by those who have the device open.
  pub data Runs (k : Keyboard) : Keyboard → Type 0 where
    started : Runs k k
    opened :
        (k1 k2 : Keyboard) (memory : Bool) (user : Option Ps2User)
        → Runs k k1
        → k1.dev.num_open + 1 < 2 ^ 31
        → open_device fuel reply isr memory k1 ≡ some (user, k2)
        → Runs k k2
    closed : (k1 : Keyboard) → Runs k k1 → 0 < k1.dev.num_open → Runs k (close_device k1)

  -- Through any sequence of ps2_open, with memory or without, and of ps2_close by those who have the device open,
  -- line 1 is masked exactly while nobody has it open; while somebody has, the controller is
  -- configured and ps2_isr registered. The nesting of the interrupts is as at the start.
  pub Runs-IsTracked :
      (k k' : Keyboard)
      → IsResponsive fuel reply
      → IsConsistent irq
      → IsTracked reply isr irq k
      → Runs k k'
      → IsTracked reply isr irq k'
  Runs-IsTracked k k' r c t started = t
  Runs-IsTracked k k' r c t (opened k1 k2 memory user run room e) =
      (Ensures-at (Opened reply isr irq memory k1) (open_device fuel reply isr memory k1) (user, k2)
        e (open_device-Ensures memory k1 r c room (Runs-IsTracked k k1 r c t run))).0
  Runs-IsTracked k k' r c t (closed k1 run some_open) =
      (close_device-IsTracked k1 c some_open (Runs-IsTracked k k1 r c t run)).0
