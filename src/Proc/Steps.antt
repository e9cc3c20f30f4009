-- ===== src/Proc/Steps.antt =====
-- What each operation of proc.c does to the places of the processes.
use marimba.Base.{
  ◌∙◌, ℕ, ◌+◌, ◌-◌, ◌<◌, ◌≡◌, ◌≢◌, refl, inl, inr, true, ◌||◌, List, [], ◌∷◌, ◌++◌, arith, ◌==◌,
  if◌then◌else◌, Bool-cases, has,
}
use marimba.Interrupts.{IrqState}
use marimba.Proc.{
  ProcState, null, main_proc, yield, with_current, process_exit, remove, create_process,
}
use marimba.Proc.Places.{count, count-append, one_if, IsPlaced, yield-IsPicked, count-with_current}

-- The current process gives up the processor asleep, in one more place of `waiting'` if it is no longer counted
-- otherwise; `irq` is what the section before has left.
pub sleep-IsPlaced :
    (waiting waiting' : List ℕ) (irq : IrqState) (s : ProcState)
    → irq.semaphore ≡ 0
    → ((p : ℕ) → p ≢ main_proc → count p waiting' ≡ count p waiting + one_if p s.curr_proc)
    → count main_proc waiting' ≡ 0
    → IsPlaced waiting s
    → IsPlaced waiting' (yield (record s { sleep_curr = true; irq = irq }))
sleep-IsPlaced waiting waiting' irq s shut more main v =
    let asleep : ProcState = record s { sleep_curr = true; irq = irq } in
    let n : count null (with_current asleep) ≡ 0 = ground (arith, v.no_null) in
    let m : count main_proc (with_current asleep) ≡ 0 = ground (arith, v.no_main) in
    let y = yield-IsPicked asleep n m in
    record {
      placed = λ p h h'.
          ground (
            arith,
            y.moved p h h',
            y.procs,
            more p h',
            v.placed p h h',
            count-with_current p asleep,
          );
      unique = λ p. rw y.procs (v.unique p);
      no_null = ground (arith, y.no_null, v.no_null, more null (omega arith));
      no_main = ground (arith, y.no_main, main);
      awake = λ h. ground (arith, y.asleep, h);
      closed = y.semaphore ∙ shut;
      settled = y.settled;
    }

count-remove :
    (p q : ℕ) (qs : List ℕ)
    → count p (remove q qs) ≡ count p qs - (if has q qs then one_if p q else 0)
unfolding remove
count-remove p q [] = refl
count-remove p q (r ∷ rs) = ground (arith, count-remove p q rs)

has-count : (p : ℕ) (qs : List ℕ) → 0 < count p qs → has p qs ≡ true
has-count p [] h = absurd (omega arith)
has-count p (q ∷ qs) h = ground (arith, has-count p qs)

pub exit-IsPlaced :
    (waiting : List ℕ) (s : ProcState)
    → s.curr_proc ≢ main_proc
    → IsPlaced waiting s
    → IsPlaced waiting (process_exit s)
unfolding process_exit
exit-IsPlaced waiting s h v =
    let gone : ProcState = record s { procs = remove s.curr_proc s.procs; curr_proc = null } in
    let n : count null (with_current gone) ≡ 0 = ground (arith, v.no_null) in
    let m : count main_proc (with_current gone) ≡ 0 = ground (arith, v.no_main) in
    let y = yield-IsPicked gone n m in
    let running : s.curr_proc ≢ null = ground (arith, v.no_null) in
    let listed : has s.curr_proc s.procs ≡ true =
      has-count s.curr_proc s.procs (ground (arith, v.placed s.curr_proc running h)) in
    record {
      placed = λ p h h'. ground (
        arith,
        y.moved p h h',
        y.procs,
        v.placed p h h',
        count-remove p s.curr_proc s.procs,
        listed,
      );
      unique = λ p. ground (arith, y.procs, v.unique p, count-remove p s.curr_proc s.procs);
      no_null = ground (arith, y.no_null, v.no_null);
      no_main = ground (arith, y.no_main, v.no_main);
      awake = λ h. ground (arith, y.asleep, h);
      closed = y.semaphore ∙ v.closed;
      settled = y.settled;
    }

-- Waiting processes that become ready.
pub wake-IsPlaced :
    (waiting waiting' woken : List ℕ) (irq : IrqState) (s : ProcState)
    → irq.semaphore ≡ 0
    → ((p : ℕ) → count p waiting ≡ count p waiting' + count p woken)
    → IsPlaced waiting s
    → IsPlaced waiting' (record s { ready_queue = s.ready_queue ++ woken; irq = irq })
wake-IsPlaced waiting waiting' woken irq s shut less v = record {
  placed = λ p h h'. omega (arith, v.placed p h h', less p, count-append p s.ready_queue woken);
  unique = v.unique;
  no_null = omega (arith, v.no_null, less null, count-append null s.ready_queue woken);
  no_main = omega (arith, v.no_main, less main_proc, count-append main_proc s.ready_queue woken);
  awake = v.awake;
  closed = shut;
  settled = v.settled;
}

pub create-IsPlaced :
    (waiting : List ℕ) (new stack : ℕ) (s : ProcState)
    → new ≢ main_proc
    → count new s.procs ≡ 0
    → IsPlaced waiting s
    → IsPlaced waiting (create_process new stack s).1
unfolding create_process
create-IsPlaced waiting new stack s h fresh v = elim (Bool-cases (new == null || stack == null)) [
  | inl fails ↦ rw fails v
  | inr starts ↦ rw starts (record {
    placed = λ p h h'. omega (
      arith,
      v.placed p h h',
      count-append p s.ready_queue (new ∷ []),
      count-append p s.procs (new ∷ []),
    );
    unique = λ p. ground (arith, v.unique p, fresh, count-append p s.procs (new ∷ []));
    no_null = ground (arith, v.no_null, count-append null s.ready_queue (new ∷ []));
    no_main = ground (arith, v.no_main, count-append main_proc s.ready_queue (new ∷ []));
    awake = v.awake;
    closed = v.closed;
    settled = v.settled;
  })
]
