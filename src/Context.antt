-- ===== src/Context.antt =====
-- src/arch/x86_64/proc.c: the registers of a process, saved from the words that an interrupt leaves on
-- the stack and from the processor, and put back there.
pub mod RoundTrip
pub mod Entry
mod Tests
use marimba.Base.{
  ℕ, zero, suc, ◌+◌, ◌-◌, ◌*◌, ◌/◌, ◌%◌, ◌^◌, ◌≤◌, ◌<◌, ◌≡◌, ◌≢◌, refl, sym, ap, ◌∙◌, ◌⊎◌, inl, inr,
  Bool, true, false, not, ◌&&◌, ◌||◌, Option, none, some, List, [], ◌∷◌, ◌++◌, map, append_assoc,
  append-nil, arith, ltb, leb, ◌==◌, ==_iff, if◌then◌else◌, Bool-cases, length, length-append,
  length-set, get_or, set, has, bit_and, bit_or,
}

-- The registers that the two functions move with inline assembly.
pub record Processor : Type 0 where
  pub ds : ℕ
  pub es : ℕ
  pub fs : ℕ
  pub gs : ℕ
  pub r12 : ℕ
  pub r13 : ℕ
  pub r14 : ℕ
  pub r15 : ℕ
  pub rbx : ℕ

-- The saved registers of `struct Process`.
pub record Process : Type 0 where
  pub rbp : ℕ
  pub rax : ℕ
  pub r9 : ℕ
  pub r8 : ℕ
  pub rcx : ℕ
  pub rdx : ℕ
  pub r11 : ℕ
  pub r10 : ℕ
  pub rsi : ℕ
  pub rdi : ℕ
  pub rip : ℕ
  pub cs : ℕ
  pub rflags : ℕ
  pub rsp : ℕ
  pub ss : ℕ
  pub processor : Processor

-- The words on the stack, by their indices.
abbrev pub Stack : Type 0
Stack = ℕ → ℕ

unfoldable pub save_context : Stack → Processor → Process
save_context stack processor = record {
  rbp = stack 0;
  rax = stack 1;
  r9 = stack 2;
  r8 = stack 3;
  rcx = stack 4;
  rdx = stack 5;
  r11 = stack 6;
  r10 = stack 7;
  rsi = stack 8;
  rdi = stack 9;
  rip = stack 10;
  cs = bit_and (stack 11) 0xFFFF;
  rflags = stack 12;
  rsp = stack 13;
  ss = bit_and (stack 14) 0xFFFF;
  processor = processor;
}

-- The stack behind its first 15 words stays; the selectors are or-ed into what stands there.
unfoldable pub load_context : Process → Stack → Stack × Processor
load_context proc stack = (
  λ i.
      get_or
        (proc.rbp
          ∷ proc.rax
          ∷ proc.r9
          ∷ proc.r8
          ∷ proc.rcx
          ∷ proc.rdx
          ∷ proc.r11
          ∷ proc.r10
          ∷ proc.rsi
          ∷ proc.rdi
          ∷ proc.rip
          ∷ bit_or (stack 11) proc.cs
          ∷ proc.rflags
          ∷ proc.rsp
          ∷ bit_or (stack 14) proc.ss
          ∷ [])
        i (stack i),
  proc.processor,
)

-- `new` behind the call of memset.
abbrev pub zero_process : Process
zero_process = record {
  rbp = 0;
  rax = 0;
  r9 = 0;
  r8 = 0;
  rcx = 0;
  rdx = 0;
  r11 = 0;
  r10 = 0;
  rsi = 0;
  rdi = 0;
  rip = 0;
  cs = 0;
  rflags = 0;
  rsp = 0;
  ss = 0;
  processor = record {
    ds = 0;
    es = 0;
    fs = 0;
    gs = 0;
    r12 = 0;
    r13 = 0;
    r14 = 0;
    r15 = 0;
    rbx = 0;
  };
}

-- The registers that PROC_create_process sets, with the stack that MMU_alloc_stack returned.
unfoldable pub new_process : (stack entry_point arg : ℕ) → Process
new_process stack entry_point arg = record zero_process {
  rsp = stack - 16;
  rbp = stack - 8;
  rip = entry_point;
  rdi = arg;
  cs = 0x10;
}

abbrev pub store : (ℕ → ℕ) → ℕ → ℕ → ℕ → ℕ
store m p v a = if a == p then v else m a

-- The three words that PROC_create_process writes to the stack, in a memory of words by their addresses.
unfoldable pub new_stack : (stack process_exit : ℕ) → (ℕ → ℕ) → ℕ → ℕ
new_stack stack process_exit m =
    store (store (store m stack 0) (stack - 8) 0) (stack - 16) process_exit
