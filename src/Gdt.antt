-- ===== src/Gdt.antt =====
-- The descriptors of src/arch/x86_64/hw_init.c: `struct GDTEntry` with its bit fields, and the table that
-- init_gdt fills, the TSS and the table register. The instructions that load the two registers are left out.
pub mod Fields
mod Tests
use marimba.Base.{
  ℕ, zero, suc, ◌+◌, ◌-◌, ◌*◌, ◌/◌, ◌%◌, ◌^◌, ◌≤◌, ◌<◌, ◌≡◌, ◌≢◌, refl, sym, ap, ◌∙◌, ◌⊎◌, inl, inr,
  Bool, true, false, not, ◌&&◌, ◌||◌, Option, none, some, List, [], ◌∷◌, ◌++◌, map, append_assoc,
  append-nil, arith, ltb, leb, ◌==◌, ==_iff, if◌then◌else◌, Bool-cases, length, length-append,
  length-set, get_or, set, has, bit_and, bit_or,
}

pub record GdtEntry : Type 0 where
  pub limit_0_15 : ℕ
  pub base_0_15 : ℕ
  pub base_16_23 : ℕ
  pub type : ℕ
  pub user_segment : ℕ
  pub dpl : ℕ
  pub present : ℕ
  pub limit_16_19 : ℕ
  pub avl : ℕ
  pub l : ℕ
  pub d : ℕ
  pub g : ℕ
  pub base_24_31 : ℕ
  pub base_32_63 : ℕ

abbrev pub zero_entry : GdtEntry
zero_entry = record {
  limit_0_15 = 0;
  base_0_15 = 0;
  base_16_23 = 0;
  type = 0;
  user_segment = 0;
  dpl = 0;
  present = 0;
  limit_16_19 = 0;
  avl = 0;
  l = 0;
  d = 0;
  g = 0;
  base_24_31 = 0;
  base_32_63 = 0;
}

-- The entry that gdt_user_init writes, with `base` cut to its 32 bits.
unfoldable pub user_entry : (base limit type : ℕ) → GdtEntry
user_entry base limit type = record zero_entry {
  user_segment = 1;
  type = type % 2 ^ 4;
  present = 1;
  l = 1;
  limit_0_15 = limit % 2 ^ 16;
  limit_16_19 = limit / 2 ^ 16 % 2 ^ 4;
  base_0_15 = base % 2 ^ 32 % 2 ^ 16;
  base_16_23 = base % 2 ^ 32 / 2 ^ 16 % 2 ^ 8;
  base_24_31 = base % 2 ^ 32 / 2 ^ 24 % 2 ^ 8;
}

abbrev pub Gdt : Type 0
Gdt = ℕ → GdtEntry

abbrev pub set_entry : ℕ → GdtEntry → Gdt → Gdt
set_entry i e gdt j = if j == i then e else gdt j

unfoldable pub gdt_user_init : (i base limit type : ℕ) → Gdt → Gdt
unfolding user_entry
gdt_user_init i base limit type gdt = set_entry i (user_entry base limit type) gdt

-- The upper half of the base goes to the entry 2, whichever entry is initialised.
unfoldable pub gdt_sys_init : (i base limit type : ℕ) → Gdt → Gdt
unfolding gdt_user_init
gdt_sys_init i base limit type gdt =
    let g1 = gdt_user_init i base limit type gdt in
    let g2 = set_entry i (record (g1 i) { user_segment = 0 }) g1 in
    set_entry 2 (record (g2 2) { base_32_63 = base / 2 ^ 32 % 2 ^ 32 }) g2

-- `sizeof(struct TSS)`
abbrev pub tss_size : ℕ
tss_size = 104

unfoldable pub init_gdt : (tss : ℕ) → Gdt
unfolding gdt_user_init gdt_sys_init
init_gdt tss = gdt_sys_init 2 tss tss_size 0x9 (gdt_user_init 1 0 0 0x8 (λ i. zero_entry))

-- `struct TSS` without its reserved words: the stacks of the privilege levels and those of the interrupts.
pub record Tss : Type 0 where
  pub rsp : List ℕ
  pub ist : List ℕ
  pub io_map_base : ℕ

abbrev pub zero_tss : Tss
zero_tss = record { rsp = 0 ∷ 0 ∷ 0 ∷ []; ist = 0 ∷ 0 ∷ 0 ∷ 0 ∷ 0 ∷ 0 ∷ 0 ∷ []; io_map_base = 0 }

-- The stacks are the tops of the four stacks in the assembly.
abbrev pub init_tss : (stack1 stack2 stack3 stack4 : ℕ) → Tss
init_tss stack1 stack2 stack3 stack4 = record zero_tss {
  ist = set (set (set (set zero_tss.ist 0 stack1) 1 stack2) 2 stack3) 3 stack4;
}

-- The table register: `sizeof(struct GDTEntry)` is 16, and the last byte of the table is its length.
abbrev pub gdt_length : ℕ
gdt_length = 3

abbrev pub gdtr_length : ℕ
gdtr_length = 16 * gdt_length - 1

-- The operand of `ltr`.
abbrev pub task_register : ℕ
task_register = 2 * 16
