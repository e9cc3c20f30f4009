-- ===== src/Proc/Wakes.antt =====
-- The interrupts of devices keep each process of proc.c in one place.
use marimba.Base.{
  ◌-◌, ◌==◌, false, subst, ℕ, ◌+◌, ◌≡◌, refl, sym, ap, true, List, [], ◌∷◌, ◌++◌, append-nil, arith,
}
use marimba.Interrupts.{IrqState, irq_disable, irq_enable}
use marimba.Proc.{unblock_head, unblock_all, irq_generic_isr, switch_context}
use marimba.Proc.Schedule.{move_all-append, irq_enable-irq_disable}
use marimba.Proc.Places.{count, count-append, IsPlaced}
use marimba.Proc.Steps.{wake-IsPlaced}
use marimba.Proc.System.{
  System, Device, interrupted, interrupted_on, keyboard, disk, queue_of, with_queue, waiting_of,
}

abbrev pub IsSystemPlaced : System → Type 0
IsSystemPlaced t = IsPlaced (waiting_of t) t.state

-- What an interrupt whose handler opens and closes a section leaves: the semaphore, and the flag that iretq loads.
abbrev pub woken_irq : IrqState → IrqState
woken_irq i =
    let in_handler : IrqState = record { semaphore = i.semaphore + 1; accepting = false } in
    record {
      semaphore = (irq_enable (irq_disable in_handler)).semaphore - 1;
      accepting = i.accepting;
    }

pub shut_woken : (t : System) → IsSystemPlaced t → (woken_irq t.state.irq).semaphore ≡ 0
shut_woken t v =
    let in_handler : IrqState = record {
      semaphore = t.state.irq.semaphore + 1;
      accepting = false;
    } in
    omega (arith, irq_enable-irq_disable in_handler, v.closed)

-- A device's queue gives up the processes `woken` from its front.
pub woken-IsPlaced :
    (d : Device) (t : System) (woken rest : List ℕ) (irq : IrqState)
    → queue_of d t ≡ woken ++ rest
    → irq.semaphore ≡ 0
    → IsSystemPlaced t
    → IsSystemPlaced (
        with_queue d t
          (rest, record t.state { ready_queue = t.state.ready_queue ++ woken; irq = irq }))
woken-IsPlaced keyboard t woken rest irq e closed v =
    wake-IsPlaced (waiting_of t) (rest ++ t.disk) woken irq t.state closed less v
  where
    less : (p : ℕ) → count p (waiting_of t) ≡ count p (rest ++ t.disk) + count p woken
    less p = omega (
      arith,
      count-append p t.keyboard t.disk,
      ap (count p) e,
      count-append p woken rest,
      count-append p rest t.disk,
    )
woken-IsPlaced disk t woken rest irq e closed v =
    wake-IsPlaced (waiting_of t) (t.keyboard ++ rest) woken irq t.state closed less v
  where
    less : (p : ℕ) → count p (waiting_of t) ≡ count p (t.keyboard ++ rest) + count p woken
    less p = omega (
      arith,
      count-append p t.keyboard t.disk,
      ap (count p) e,
      count-append p woken rest,
      count-append p t.keyboard rest,
    )

pub interrupted-all :
    (d : Device) (t : System)
    → (t.state.curr_proc == t.state.next_proc) ≡ true
    → interrupted d unblock_all t
      ≡ with_queue d t (
        [],
        record t.state {
          ready_queue = t.state.ready_queue ++ queue_of d t;
          irq = woken_irq t.state.irq;
        },
      )
unfolding irq_generic_isr switch_context unblock_all
interrupted-all keyboard t settled =
    rw settled (rw (move_all-append t.keyboard t.state.ready_queue) refl)
interrupted-all disk t settled = rw settled (rw (move_all-append t.disk t.state.ready_queue) refl)

head-cons :
    (d : Device) (t : System) (p : ℕ) (ps : List ℕ)
    → (t.state.curr_proc == t.state.next_proc) ≡ true
    → interrupted_on d unblock_head (p ∷ ps) t
      ≡ with_queue d t (
        ps,
        record t.state { ready_queue = t.state.ready_queue ++ p ∷ []; irq = woken_irq t.state.irq },
      )
unfolding irq_generic_isr switch_context unblock_head
head-cons keyboard t p ps settled = rw settled refl
head-cons disk t p ps settled = rw settled refl

-- What an interrupt leaves whose handler does nothing.
abbrev counted_irq : IrqState → IrqState
counted_irq i = record i { semaphore = i.semaphore + 1 - 1 }

head-nil :
    (d : Device) (t : System)
    → (t.state.curr_proc == t.state.next_proc) ≡ true
    → interrupted_on d unblock_head [] t
      ≡ with_queue d t (
        [],
        record t.state { ready_queue = t.state.ready_queue ++ []; irq = counted_irq t.state.irq },
      )
unfolding irq_generic_isr switch_context unblock_head
head-nil keyboard t settled = rw (append-nil t.state.ready_queue) (rw settled refl)
head-nil disk t settled = rw (append-nil t.state.ready_queue) (rw settled refl)

pub wake_head-IsPlaced :
    (d : Device) (t : System) (queue : List ℕ)
    → queue_of d t ≡ queue
    → IsSystemPlaced t
    → IsSystemPlaced (interrupted_on d unblock_head queue t)
wake_head-IsPlaced d t [] e v =
    subst (λ (w : System). IsSystemPlaced w) (sym (head-nil d t v.settled))
      (woken-IsPlaced d t [] [] (counted_irq t.state.irq) e (omega (arith, v.closed)) v)
wake_head-IsPlaced d t (p ∷ ps) e v =
    subst (λ (w : System). IsSystemPlaced w) (sym (head-cons d t p ps v.settled))
      (woken-IsPlaced d t (p ∷ []) ps (woken_irq t.state.irq) e (shut_woken t v) v)
