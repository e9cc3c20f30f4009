-- ===== src/Proc/Schedule.antt =====
-- Processes run in the order in which they became ready.
use marimba.Base.{
  if◌then◌else◌, Bool, has-append, ℕ, zero, suc, ◌≡◌, ◌≢◌, refl, sym, ap, ◌∙◌, ◌⊎◌, inl, inr, true,
  false, List, [], ◌∷◌, ◌++◌, append_assoc, append-nil, arith, ◌==◌, ==_iff, Bool-cases, length,
  has,
}
use marimba.Interrupts.{IrqState, irq_disable, irq_enable}
use marimba.Proc.{
  irq_generic_isr, reschedule, saved, settle, with_current, ProcState, null, yield, unblock_all,
  move_all, pick_next, switch_context,
}

-- A section that is opened and closed gives back the semaphore.
pub irq_enable-irq_disable : (i : IrqState) → (irq_enable (irq_disable i)).semaphore ≡ i.semaphore
unfolding irq_enable irq_disable
irq_enable-irq_disable i = ground arith

-- The state in which the process that was picked runs: the semaphore is as before, and the interrupt flag that of
-- the process, as it saved it or, for a new one, 0.
abbrev pub returns : ProcState → ProcState
returns s =
    let flags = saved s.irq.accepting s in
    record s {
      curr_proc = s.next_proc;
      irq = record s.irq {
        accepting = if s.curr_proc == s.next_proc then s.irq.accepting else flags s.next_proc;
      };
      flags = if s.curr_proc == s.next_proc then s.flags else flags;
    }

-- What iretq leaves.
abbrev returned : Bool × ProcState → ProcState
returned (pushed, s) = record s { irq = record s.irq { accepting = pushed } }

switched :
    (s : ProcState) (i : IrqState)
    → (irq_enable i).semaphore ≡ s.irq.semaphore
    → returned (switch_context s.irq.accepting (settle (record s { irq = i }))) ≡ returns s
unfolding switch_context settle
switched s i e = elim (Bool-cases (s.curr_proc == s.next_proc)) [
  | inl same ↦
      let here : s.curr_proc ≡ s.next_proc = (==_iff _ _).0 same in
      rw (same, same)
        (ap
            (λ c. record s {
              curr_proc = c;
              irq = record { semaphore = (irq_enable i).semaphore; accepting = s.irq.accepting };
            })
            here
          ∙ ap
              (λ n. record s {
                curr_proc = s.next_proc;
                irq = record { semaphore = n; accepting = s.irq.accepting };
              })
              e)
  | inr other ↦
      rw (other, other)
        (let flags = saved s.irq.accepting s in
          ap
            (λ n. record s {
              curr_proc = s.next_proc;
              irq = record { semaphore = n; accepting = flags s.next_proc };
              flags = flags;
            })
            e)
]

pick_next-irq :
    (ready : List ℕ) (s : ProcState) (i : IrqState)
    → (pick_next ready (record s { irq = i }) ≡ record (pick_next ready s) { irq = i })
      × ((pick_next ready s).irq ≡ s.irq)
unfolding pick_next
pick_next-irq [] s i = (refl, refl)
pick_next-irq (p ∷ ps) s i = (refl, refl)

-- `yield` puts the current process behind all that are ready, unless it sleeps, and runs the one that
-- has been ready longest; with none ready the main process runs and sleeps. The semaphore is that before.
pub yield_lem : (s : ProcState) → yield s ≡ returns (pick_next (with_current s) s)
unfolding yield reschedule irq_generic_isr
yield_lem s =
    let off : IrqState = irq_disable (record s.irq { accepting = false }) in
    let next = pick_next (with_current s) s in
    let e = pick_next-irq (with_current s) s off in
    let back : (irq_enable off).semaphore ≡ next.irq.semaphore =
      irq_enable-irq_disable (record s.irq { accepting = false })
      ∙ ap (λ (i : IrqState). i.semaphore) (sym e.1) in
    rw e.0 (
      ap (λ b. returned (switch_context b (settle (record next { irq = off }))))
        (ap (λ (i : IrqState). i.accepting) (sym e.1))
      ∙ switched next off back)

pub yields : ℕ → ProcState → ProcState
unfolding yield
yields zero s = s
yields (suc n) s = yields n (yield s)

-- A process runs that no wait keeps from being ready again.
pub record IsActive (s : ProcState) : Type 0 where
  pub current : s.curr_proc ≢ null
  pub awake : s.sleep_curr ≡ false
  pub no_null : has null s.ready_queue ≡ false

picked :
    (s : ProcState) (p : ℕ) (ps : List ℕ)
    → IsActive s
    → s.ready_queue ≡ p ∷ ps
    → let s' = returns (pick_next (p ∷ (ps ++ s.curr_proc ∷ [])) s) in
      IsActive s' × (s'.curr_proc ≡ p) × (s'.ready_queue ≡ ps ++ s.curr_proc ∷ [])
unfolding pick_next
picked s p ps a e =
    let none : has null (p ∷ ps) ≡ false = rw e at a.no_null in
    (
      record {
        current = ground arith;
        awake = refl;
        no_null = ground (arith, a.current, has-append null ps (s.curr_proc ∷ []));
      },
      refl,
      refl,
    )

yield-cons :
    (s : ProcState) (p : ℕ) (ps : List ℕ)
    → IsActive s
    → s.ready_queue ≡ p ∷ ps
    → let s' = yield s in
      IsActive s' × (s'.curr_proc ≡ p) × (s'.ready_queue ≡ ps ++ s.curr_proc ∷ [])
yield-cons s p ps a e =
    let ready : with_current s ≡ p ∷ (ps ++ s.curr_proc ∷ []) =
      ground (arith, a.current, a.awake) in
    rw (yield_lem s, ready) (picked s p ps a e)

-- Every ready process comes to run while no process sleeps: the one behind `xs` in the ready
-- queue runs after as many yields as there are processes before it, and one more. The ready queue
-- then has those that were behind it, the process that ran at first, and `xs`, in this order.
pub yields-ready :
    (xs : List ℕ) (s : ProcState) (y : ℕ) (ys : List ℕ)
    → IsActive s
    → s.ready_queue ≡ xs ++ y ∷ ys
    → let s' = yields (suc (length xs)) s in
      (s'.curr_proc ≡ y) × (s'.ready_queue ≡ ys ++ s.curr_proc ∷ xs)
unfolding yields
yields-ready [] s y ys a e = let one = yield-cons s y ys a e in (one.1, one.2)
yields-ready (x ∷ xs) s y ys a e =
    let one = yield-cons s x (xs ++ y ∷ ys) a e in
    let rest =
      yields-ready xs (yield s) y (ys ++ s.curr_proc ∷ []) one.0
        (one.2 ∙ append_assoc xs (y ∷ ys) (s.curr_proc ∷ [])) in
    (
      rest.0,
      rest.1
          ∙ append_assoc ys (s.curr_proc ∷ []) ((yield s).curr_proc ∷ xs)
          ∙ ap (λ (p : ℕ). ys ++ s.curr_proc ∷ p ∷ xs) one.1,
    )

pub move_all-append : (ps ready : List ℕ) → move_all ps ready ≡ ready ++ ps
unfolding move_all
move_all-append [] ready = sym (append-nil ready)
move_all-append (p ∷ ps) ready =
    move_all-append ps (ready ++ p ∷ []) ∙ append_assoc ready (p ∷ []) ps

-- PROC_unblock_all empties the queue that it is given onto the end of the ready queue, in order, with
-- interrupts off meanwhile.
pub unblock_all_lem :
    (queue : List ℕ) (s : ProcState)
    → unblock_all queue s ≡ (
      [],
      record s { ready_queue = s.ready_queue ++ queue; irq = irq_enable (irq_disable s.irq) },
    )
unfolding unblock_all
unblock_all_lem queue s = rw (move_all-append queue s.ready_queue) refl

pick_next-has :
    (ready : List ℕ) (s : ProcState) (p : ℕ)
    → has p ready ≡ true
    → ((pick_next ready s).next_proc ≡ p) ⊎ (has p (pick_next ready s).ready_queue ≡ true)
unfolding pick_next
pick_next-has [] s p h = absurd (ground arith)
pick_next-has (q ∷ qs) s p h = elim (Bool-cases (p == q)) [
  | inl same ↦ inl (sym ((==_iff p q).0 same))
  | inr other ↦ inr (ground arith)
]

-- Between the moment at which a process has put itself on a queue and the trap by which it gives up
-- the processor, an interrupt may wake the whole queue: then the process is ready after the trap, or
-- runs on.
pub unblock_all-yield :
    (queue : List ℕ) (s : ProcState)
    → let woken = (unblock_all (queue ++ s.curr_proc ∷ []) (record s { sleep_curr = true })).1 in
      (((yield woken).curr_proc ≡ s.curr_proc) ⊎ (has s.curr_proc (yield woken).ready_queue ≡ true))
unblock_all-yield queue s =
    let asleep : ProcState = record s { sleep_curr = true } in
    let all = s.ready_queue ++ (queue ++ s.curr_proc ∷ []) in
    let ready : with_current (record asleep { ready_queue = all }) ≡ all = ground arith in
    let listed : has s.curr_proc all ≡ true = ground (
      arith,
      has-append s.curr_proc s.ready_queue (queue ++ s.curr_proc ∷ []),
      has-append s.curr_proc queue (s.curr_proc ∷ []),
    ) in
    rw
      (
        unblock_all_lem (queue ++ s.curr_proc ∷ []) asleep,
        yield_lem (record asleep { ready_queue = all; irq = irq_enable (irq_disable s.irq) }),
        ready,
      )
      (pick_next-has all (record asleep { ready_queue = all; irq = irq_enable (irq_disable s.irq) })
        s.curr_proc listed)
