-- ===== src/Proc/System.antt =====
-- The processes of the kernel over time: those of proc.c, with the two devices that they wait for.
use marimba.Base.{ℕ, ◌≡◌, ◌≢◌, true, false, List, [], ◌++◌}
use marimba.Interrupts.{irq_disable}
use marimba.Proc.{
  ProcState, main_proc, yield, block_on, unblock_head, unblock_all, process_exit, create_process,
  proc_run_round, irq_generic_isr,
}
use marimba.Proc.Places.{count}

-- The processes that wait for the keyboard and for the disk.
pub record System : Type 0 where
  pub keyboard : List ℕ
  pub disk : List ℕ
  pub state : ProcState

pub data Device : Type 0 where
  keyboard disk : Device

abbrev pub queue_of : Device → System → List ℕ
queue_of keyboard t = t.keyboard
queue_of disk t = t.disk

-- The system with what an operation on a device's queue left.
abbrev pub with_queue : Device → System → List ℕ × ProcState → System
with_queue keyboard t (queue, s) = record t { keyboard = queue; state = s }
with_queue disk t (queue, s) = record t { disk = queue; state = s }

-- The interrupt lines of the two, from 0x20 on.
abbrev pub line_of : Device → ℕ
line_of keyboard = 0x21
line_of disk = 0x2E

-- A device's interrupt whose handler wakes processes of `queue`: `wake` does the same to the queue in any state.
abbrev pub interrupted_on :
    Device → (wake : List ℕ → ProcState → List ℕ × ProcState) → List ℕ → System → System
interrupted_on d wake queue t =
    let state = irq_generic_isr (line_of d) (λ s. (wake queue s).1) t.state in
    with_queue d t ((wake queue t.state).0, state)

abbrev pub interrupted : Device → (wake : List ℕ → ProcState → List ℕ × ProcState) → System → System
interrupted d wake t = interrupted_on d wake (queue_of d t) t

-- What can happen: the main process does a round of PROC_run; the running process yields to the others, waits
-- for a device with IRQ_disable before it as the drivers do, exits, or starts a process in memory
-- that no other process has; a device's interrupt wakes one waiting process or all.
pub data Step (t u : System) : Type 0 where
  runs :
      t.state.curr_proc ≡ main_proc → u ≡ record t { state = (proc_run_round t.state).1 } → Step t u
  yields : t.state.curr_proc ≢ main_proc → u ≡ record t { state = yield t.state } → Step t u
  blocks :
      (d : Device)
      → t.state.curr_proc ≢ main_proc
      → u
        ≡ with_queue d t
            (block_on true (queue_of d t) (record t.state { irq = irq_disable t.state.irq }))
      → Step t u
  wakes_head : (d : Device) → u ≡ interrupted d unblock_head t → Step t u
  wakes_all : (d : Device) → u ≡ interrupted d unblock_all t → Step t u
  exits : t.state.curr_proc ≢ main_proc → u ≡ record t { state = process_exit t.state } → Step t u
  creates :
      (new stack : ℕ)
      → new ≢ main_proc
      → count new t.state.procs ≡ 0
      → u ≡ record t { state = (create_process new stack t.state).1 }
      → Step t u

pub data Reach (t : System) : System → Type 0 where
  here : Reach t t
  next : {u v : System} → Reach t u → Step u v → Reach t v

abbrev pub waiting_of : System → List ℕ
waiting_of t = t.keyboard ++ t.disk

-- The main process, with interrupts on, before any process was created.
abbrev pub at_start : System
at_start = record {
  keyboard = [];
  disk = [];
  state = record {
    ready_queue = [];
    procs = [];
    sleep_curr = false;
    curr_proc = main_proc;
    next_proc = main_proc;
    irq = record { semaphore = 0; accepting = true };
    flags = λ p. false;
  };
}
