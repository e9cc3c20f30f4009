-- ===== src/Proc/Tests.antt =====
-- The scheduler on small inputs, and the theorems about it there.
use marimba.Base.{◌≡◌, refl, ◌⊎◌, true, false, [], ◌∷◌, ◌++◌, arith, has}
use marimba.Interrupts.{IrqState, irq_disable}
use marimba.Proc.{remove, ProcState, yield, unblock_all, block_on, process_exit}
use marimba.Base.{◌≢◌, ◌≤◌, ◌+◌}
use marimba.Proc.{main_proc, create_process, proc_run_round}
use marimba.Proc.Places.{count, active}
use marimba.Proc.System.{System, Reach, here, next, Step, creates, at_start}
use marimba.Proc.Once.{Reach-once, Reach-current}
use marimba.Proc.Schedule.{yields, IsActive, yields-ready, unblock_all-yield}

abbrev open_irq : IrqState
open_irq = record { semaphore = 0; accepting = true }

-- Process 10 runs, and 20, 30 and 40 are ready.
abbrev four : ProcState
four = record {
  ready_queue = 20 ∷ 30 ∷ 40 ∷ [];
  procs = 10 ∷ 20 ∷ 30 ∷ 40 ∷ [];
  sleep_curr = false;
  curr_proc = 10;
  next_proc = 10;
  irq = open_irq;
  flags = λ p. false;
}

blocks :
    let (queue, s') = block_on false (50 ∷ []) four in
    (queue ≡ 50 ∷ 10 ∷ []) × (s'.curr_proc ≡ 20) × (s'.ready_queue ≡ 30 ∷ 40 ∷ [])
unfolding block_on yield
blocks = (refl, refl, refl)

exits : let s' = process_exit four in (s'.procs ≡ 20 ∷ 30 ∷ 40 ∷ []) × (s'.curr_proc ≡ 20)
unfolding process_exit remove yield
exits = (refl, refl)

four-IsActive : IsActive four
four-IsActive = record { current = omega arith; awake = refl; no_null = refl }

yields-ready_example :
    let s' = yields 3 four in (s'.curr_proc ≡ 40) × (s'.ready_queue ≡ [] ++ 10 ∷ 20 ∷ 30 ∷ [])
yields-ready_example = yields-ready (20 ∷ 30 ∷ []) four 40 [] four-IsActive refl

unblock_all-yield_example :
    let woken = (unblock_all ((50 ∷ []) ++ 10 ∷ []) (record four { sleep_curr = true })).1 in
    ((yield woken).curr_proc ≡ 10) ⊎ (has 10 (yield woken).ready_queue ≡ true)
unblock_all-yield_example = unblock_all-yield (50 ∷ []) four

-- A process is created, and runs.
abbrev created : System
created = record at_start { state = (create_process 10 5 at_start.state).1 }

abbrev running : System
running = record created { state = (proc_run_round created.state).1 }

running-Reach : Reach at_start running
unfolding create_process
running-Reach = next (next here (creates 10 5 (omega arith) refl refl)) (Step.runs refl refl)

Reach-once_example :
    (count 10 running.keyboard + count 10 running.disk + active 10 running.state
      ≡ count 10 running.state.procs)
    × (count 10 running.state.procs ≤ 1)
Reach-once_example = Reach-once running running-Reach 10 (omega arith) (omega arith)

Reach-current_example :
    (running.state.curr_proc ≢ 0)
    × (running.state.curr_proc ≢ main_proc → running.state.sleep_curr ≡ false)
    × (running.state.irq.semaphore ≡ 0)
Reach-current_example = Reach-current running running-Reach

-- It runs with interrupts off, though no section is open.
runs_the_process :
    (running.state.curr_proc ≡ 10)
    × (running.state.irq ≡ record { semaphore = 0; accepting = false })
unfolding proc_run_round yield create_process
runs_the_process = (refl, refl)

-- When it waits for the disk, the main process runs on, with interrupts as they were.
main_again :
    let (queue, s) =
      block_on true [] (record running.state { irq = irq_disable running.state.irq }) in
    (queue ≡ 10 ∷ []) × (s.curr_proc ≡ main_proc) × (s.irq ≡ open_irq)
unfolding proc_run_round yield create_process block_on
main_again = (refl, refl, refl)
