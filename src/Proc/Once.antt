-- ===== src/Proc/Once.antt =====
-- In every state that the kernel reaches, each process of proc.c has one place.
use marimba.Base.{
  inr, inl, Bool-cases, false, subst, ℕ, ◌+◌, ◌≤◌, ◌≡◌, ◌≢◌, refl, sym, ◌∙◌, true, [], ◌∷◌, ◌++◌,
  append-nil, arith,
}
use marimba.Interrupts.{irq_disable, irq_enable}
use marimba.Proc.{null, main_proc, block_on, proc_run_round, is_nil}
use marimba.Proc.Schedule.{irq_enable-irq_disable}
use marimba.Proc.Places.{count, count-append, one_if, active, yield-IsPlaced}
use marimba.Proc.Steps.{sleep-IsPlaced, exit-IsPlaced, create-IsPlaced}
use marimba.Proc.System.{
  System, Device, keyboard, disk, queue_of, with_queue, Step, runs, yields, blocks, wakes_head,
  wakes_all, exits, creates, Reach, here, next, waiting_of, at_start,
}
use marimba.Proc.Wakes.{
  IsSystemPlaced, woken_irq, shut_woken, woken-IsPlaced, interrupted-all, wake_head-IsPlaced,
}

-- What a section that is opened and closed leaves of the semaphore.
shut : (t : System) → IsSystemPlaced t → (irq_enable (irq_disable t.state.irq)).semaphore ≡ 0
shut t v = irq_enable-irq_disable t.state.irq ∙ v.closed

block-IsPlaced :
    (d : Device) (t : System)
    → t.state.curr_proc ≢ main_proc
    → IsSystemPlaced t
    → IsSystemPlaced (
        with_queue d t
          (block_on true (queue_of d t) (record t.state { irq = irq_disable t.state.irq })))
unfolding block_on
block-IsPlaced keyboard t h v =
    sleep-IsPlaced (waiting_of t) ((t.keyboard ++ t.state.curr_proc ∷ []) ++ t.disk) _ t.state
      (shut t v) (λ p h'. more p) (ground (arith, more main_proc, v.no_main, h)) v
  where
    more :
        (p : ℕ)
        → count p ((t.keyboard ++ t.state.curr_proc ∷ []) ++ t.disk)
          ≡ count p (waiting_of t) + one_if p t.state.curr_proc
    more p = omega (
      arith,
      count-append p (t.keyboard ++ t.state.curr_proc ∷ []) t.disk,
      count-append p t.keyboard (t.state.curr_proc ∷ []),
      count-append p t.keyboard t.disk,
    )
block-IsPlaced disk t h v =
    sleep-IsPlaced (waiting_of t) (t.keyboard ++ (t.disk ++ t.state.curr_proc ∷ [])) _ t.state
      (shut t v) (λ p h'. more p) (ground (arith, more main_proc, v.no_main, h)) v
  where
    more :
        (p : ℕ)
        → count p (t.keyboard ++ (t.disk ++ t.state.curr_proc ∷ []))
          ≡ count p (waiting_of t) + one_if p t.state.curr_proc
    more p = omega (
      arith,
      count-append p t.keyboard (t.disk ++ t.state.curr_proc ∷ []),
      count-append p t.disk (t.state.curr_proc ∷ []),
      count-append p t.keyboard t.disk,
    )

run-IsPlaced :
    (t : System)
    → t.state.curr_proc ≡ main_proc
    → IsSystemPlaced t
    → IsSystemPlaced (record t { state = (proc_run_round t.state).1 })
unfolding proc_run_round
run-IsPlaced t h v = elim (Bool-cases (is_nil t.state.ready_queue)) [
  | inl stops ↦ rw stops (record {
    placed = v.placed;
    unique = v.unique;
    no_null = v.no_null;
    no_main = v.no_main;
    awake = v.awake;
    closed = shut t v;
    settled = v.settled;
  })
  | inr goes ↦ rw goes (
      sleep-IsPlaced (waiting_of t) (waiting_of t) _ t.state (shut t v)
        (λ p h'. ground (arith, h, h')) (omega (arith, v.no_main)) v)
]

step-IsPlaced : (t u : System) → Step t u → IsSystemPlaced t → IsSystemPlaced u
step-IsPlaced t u (runs h e) v =
    subst (λ (w : System). IsSystemPlaced w) (sym e) (run-IsPlaced t h v)
step-IsPlaced t u (yields h e) v = rw e (yield-IsPlaced (waiting_of t) t.state h v)
step-IsPlaced t u (blocks d h e) v =
    subst (λ (w : System). IsSystemPlaced w) (sym e) (block-IsPlaced d t h v)
step-IsPlaced t u (wakes_head d e) v =
    subst (λ (w : System). IsSystemPlaced w) (sym e) (wake_head-IsPlaced d t (queue_of d t) refl v)
step-IsPlaced t u (wakes_all d e) v =
    subst (λ (w : System). IsSystemPlaced w) (sym (e ∙ interrupted-all d t v.settled))
      (woken-IsPlaced d t (queue_of d t) [] (woken_irq t.state.irq)
        (sym (append-nil (queue_of d t))) (shut_woken t v) v)
step-IsPlaced t u (exits h e) v = rw e (exit-IsPlaced (waiting_of t) t.state h v)
step-IsPlaced t u (creates new stack h fresh e) v =
    rw e (create-IsPlaced (waiting_of t) new stack t.state h fresh v)

Reach-IsPlaced : {t u : System} → Reach t u → IsSystemPlaced t → IsSystemPlaced u
Reach-IsPlaced here v = v
Reach-IsPlaced (next {u = w} {v = x} r st) v = step-IsPlaced w x st (Reach-IsPlaced r v)

at_start-IsPlaced : IsSystemPlaced at_start
at_start-IsPlaced = record {
  placed = λ p h h'. ground arith;
  unique = λ p. omega arith;
  no_null = omega arith;
  no_main = refl;
  awake = λ h. refl;
  closed = refl;
  settled = refl;
}

-- In every state that the kernel reaches from its start, by rounds of PROC_run, yields, waits for the keyboard and the
-- disk, wake-ups, exits and new processes in any order, each process that was created and has not
-- exited is in exactly one place: it runs, or it is ready, or it waits for one of the devices. The
-- same holds of the others with no place.
pub Reach-once :
    (t : System)
    → Reach at_start t
    → (p : ℕ) → p ≢ null
    → p ≢ main_proc
    → (count p t.keyboard + count p t.disk + active p t.state ≡ count p t.state.procs)
      × (count p t.state.procs ≤ 1)
Reach-once t r p h h' =
    let v = Reach-IsPlaced r at_start-IsPlaced in
    (omega (arith, v.placed p h h', count-append p t.keyboard t.disk), v.unique p)

-- In every such state some process runs, it does not sleep unless it is the main process, and no section between IRQ_disable
-- and IRQ_enable is open.
pub Reach-current :
    (t : System)
    → Reach at_start t
    → (t.state.curr_proc ≢ null)
      × (t.state.curr_proc ≢ main_proc → t.state.sleep_curr ≡ false)
      × (t.state.irq.semaphore ≡ 0)
Reach-current t r =
    let v = Reach-IsPlaced r at_start-IsPlaced in
    (λ e. ground (arith, v.no_null, e), v.awake, v.closed)
