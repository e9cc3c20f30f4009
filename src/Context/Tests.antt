-- ===== src/Context/Tests.antt =====
-- A context on a small input, and the theorem about it there.
use marimba.Base.{◌==◌, if◌then◌else◌, ◌+◌, ◌/◌, ◌%◌, ◌^◌, ◌≡◌, refl, arith}
use marimba.Context.Entry.{load_context-new_process}
use marimba.Context.{Stack, Processor, save_context, load_context, new_process, new_stack}
use marimba.Context.RoundTrip.{load_context-save_context}

abbrev registers : Processor
registers = record {
  ds = 0;
  es = 0;
  fs = 0;
  gs = 0;
  r12 = 12;
  r13 = 13;
  r14 = 14;
  r15 = 15;
  rbx = 3;
}

abbrev interrupted : Stack
interrupted i = if i == 11 then 0x10 else if i == 14 then 0x20 else 1000 + i

-- The stack of another process of the kernel, with the same selectors.
abbrev another : Stack
another i = if i == 11 then 0x10 else if i == 14 then 0x20 else 5000 + i

load_context-save_context_example :
    let (loaded, processor) = load_context (save_context interrupted registers) another in
    (processor ≡ registers) × (loaded 13 ≡ 1013)
load_context-save_context_example =
    load_context-save_context interrupted another registers 13 (omega arith) (omega arith) refl refl

-- Other selectors on the stack are mixed with those loaded.
selectors_mixed : (load_context (save_context interrupted registers) (λ i. 0x0C)).0 11 ≡ 0x1C
unfolding load_context save_context
selectors_mixed = refl

-- A process whose stack ends below 0x20000000000 is loaded onto the words of another process of the kernel.
load_context-new_process_example :
    let (loaded, processor) = load_context (new_process 0x1FFFFFFFFF8 0x100400 7) (λ i. 0x10) in
    (loaded 10 ≡ 0x100400)
    × (loaded 9 ≡ 7)
    × (loaded 11 ≡ 0x10)
    × (new_stack 0x1FFFFFFFFF8 0x100500 (λ a. a) (loaded 13) ≡ 0x100500)
    × (loaded 12 / 2 ^ 9 % 2 ≡ 0)
load_context-new_process_example =
    load_context-new_process 0x1FFFFFFFFF8 0x100400 7 0x100500 (λ a. a) (λ i. 0x10) (omega arith)
      refl
