-- ===== src/Proc/Places.antt =====
-- Every process of proc.c is in exactly one place: it runs, or it is ready, or it waits for one device.
use marimba.Base.{
  true, ◌∙◌, false, ℕ, ◌+◌, ◌≤◌, ◌≡◌, ◌≢◌, refl, not, ◌&&◌, List, [], ◌∷◌, ◌++◌, arith, ◌==◌,
  if◌then◌else◌,
}
use marimba.Proc.{ProcState, null, main_proc, yield, pick_next, with_current}
use marimba.Proc.Schedule.{returns, yield_lem}

-- How often a process stands in a queue.
abbrev pub count : ℕ → List ℕ → ℕ
count p [] = 0
count p (q ∷ qs) = (if p == q then 1 else 0) + count p qs

pub count-append : (p : ℕ) (xs ys : List ℕ) → count p (xs ++ ys) ≡ count p xs + count p ys
count-append p [] ys = omega arith
count-append p (x ∷ xs) ys = omega (arith, count-append p xs ys)

abbrev pub one_if : ℕ → ℕ → ℕ
one_if p q = if p == q then 1 else 0

-- How often a process runs or is ready.
abbrev pub active : ℕ → ProcState → ℕ
active p s = count p s.ready_queue + one_if p s.curr_proc

-- What holds of the processes between two steps: `waiting` are those that wait for a device.
pub record IsPlaced (waiting : List ℕ) (s : ProcState) : Type 0 where
  pub placed : (p : ℕ) → p ≢ null → p ≢ main_proc → count p waiting + active p s ≡ count p s.procs
  pub unique : (p : ℕ) → count p s.procs ≤ 1
  pub no_null : count null waiting + count null s.ready_queue + one_if null s.curr_proc ≡ 0
  pub no_main : count main_proc waiting + count main_proc s.ready_queue ≡ 0
  pub awake : s.curr_proc ≢ main_proc → s.sleep_curr ≡ false
  pub closed : s.irq.semaphore ≡ 0
  pub settled : (s.curr_proc == s.next_proc) ≡ true

-- What picking the next process of `ready` leaves.
pub record IsPicked (ready : List ℕ) (s s' : ProcState) : Type 0 where
  pub moved : (p : ℕ) → p ≢ null → p ≢ main_proc → active p s' ≡ count p ready
  pub procs : s'.procs ≡ s.procs
  pub no_null : count null s'.ready_queue + one_if null s'.curr_proc ≡ 0
  pub no_main : count main_proc s'.ready_queue ≡ 0
  pub asleep : s'.sleep_curr ≡ (s'.curr_proc == main_proc)
  pub semaphore : s'.irq.semaphore ≡ s.irq.semaphore
  pub settled : (s'.curr_proc == s'.next_proc) ≡ true

pick_next-IsPicked :
    (ready : List ℕ) (s : ProcState)
    → count null ready ≡ 0
    → count main_proc ready ≡ 0
    → IsPicked ready s (returns (pick_next ready s))
unfolding pick_next
pick_next-IsPicked [] s n m = record {
  moved = λ p h h'. ground arith;
  procs = refl;
  no_null = omega arith;
  no_main = refl;
  asleep = refl;
  semaphore = refl;
  settled = ground arith;
}
pick_next-IsPicked (q ∷ qs) s n m = record {
  moved = λ p h h'. omega arith;
  procs = refl;
  no_null = omega (arith, n);
  no_main = ground (arith, m);
  asleep = ground (arith, m);
  semaphore = refl;
  settled = ground arith;
}

pub yield-IsPicked :
    (s : ProcState)
    → count null (with_current s) ≡ 0
    → count main_proc (with_current s) ≡ 0
    → IsPicked (with_current s) s (yield s)
yield-IsPicked s n m = rw (yield_lem s) (pick_next-IsPicked (with_current s) s n m)

-- A process that is not asleep is counted where it is put.
pub count-with_current :
    (p : ℕ) (s : ProcState)
    → count p (with_current s)
      ≡ count p s.ready_queue
        + (if not (s.curr_proc == null) && not s.sleep_curr then one_if p s.curr_proc else 0)
count-with_current p s = ground (arith, count-append p s.ready_queue (s.curr_proc ∷ []))

pub yield-IsPlaced :
    (waiting : List ℕ) (s : ProcState)
    → s.curr_proc ≢ main_proc
    → IsPlaced waiting s
    → IsPlaced waiting (yield s)
yield-IsPlaced waiting s h v =
    let up = v.awake h in
    let n : count null (with_current s) ≡ 0 =
      ground (arith, count-with_current null s, v.no_null) in
    let m : count main_proc (with_current s) ≡ 0 =
      ground (arith, count-with_current main_proc s, v.no_main, up) in
    let y = yield-IsPicked s n m in
    record {
      placed = λ p h h'.
          ground (
            arith,
            y.moved p h h',
            y.procs,
            count-with_current p s,
            v.placed p h h',
            v.no_null,
            up,
          );
      unique = λ p. rw y.procs (v.unique p);
      no_null = omega (arith, y.no_null, v.no_null);
      no_main = omega (arith, y.no_main, v.no_main);
      awake = λ h. ground (arith, y.asleep, h);
      closed = y.semaphore ∙ v.closed;
      settled = y.settled;
    }
