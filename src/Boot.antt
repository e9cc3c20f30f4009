-- ===== src/Boot.antt =====
-- src/boot.c and src/elf.c: the memory map and the kernel's sections from what the boot loader leaves in
-- memory. `Bytes` is that memory; the arrays of `struct PhysicalMMap` are at fixed indices of its own
-- 64-bit words, as in types.h, and its numbers are kept apart from them.
pub mod Sections
mod Tests
use marimba.Base.{
  ℕ, zero, suc, ◌+◌, ◌-◌, ◌*◌, ◌/◌, ◌%◌, ◌^◌, ◌≤◌, ◌<◌, ◌≡◌, ◌≢◌, refl, sym, ap, ◌∙◌, ◌⊎◌, inl, inr,
  Bool, true, false, not, ◌&&◌, ◌||◌, Option, none, some, List, [], ◌∷◌, ◌++◌, map, append_assoc,
  append-nil, arith, ltb, leb, ◌==◌, ==_iff, if◌then◌else◌, Bool-cases, length, length-append,
  length-set, get_or, set, has, bit_and, bit_or,
}
use marimba.Sort.{
  Words, KernelSection, store, store_section, sort_mmap_entry_array, sort_kernel_section_array,
}

abbrev pub Bytes : Type 0
Bytes = ℕ → ℕ

-- The number in `n` bytes from an address on, the lowest byte first.
unfoldable pub number_at : (n : ℕ) → Bytes → ℕ → ℕ
number_at zero mem a = 0
number_at (suc n) mem a = mem a + 256 * number_at n mem (a + 1)

pub record PhysicalMMap : Type 0 where
  pub total_ram : ℕ
  pub num_mmap : ℕ
  pub num_kernel_sects : ℕ
  pub words : Words

abbrev pub ram_sects : ℕ
ram_sects = 2

abbrev pub kernel_sects : ℕ
kernel_sects = 67

-- The loop of parse_mmap over `n` entries from `curr` on. `none` is -1, for more than 32 of them.
unfoldable pub copy_entries : (n curr : ℕ) → Bytes → PhysicalMMap → Option PhysicalMMap
copy_entries zero curr mem dest = some dest
copy_entries (suc n) curr mem dest =
    let entry = ram_sects + 2 * dest.num_mmap in
    let addr = number_at 8 mem curr in
    let len = number_at 8 mem (curr + 8) in
    let skipped = copy_entries n (curr + 24) mem dest in
    let added = copy_entries n (curr + 24) mem (record dest {
      words = store (store dest.words entry addr) (entry + 1) len;
      num_mmap = dest.num_mmap + 1;
    }) in
    if number_at 4 mem (curr + 16) == 1
    then (if dest.num_mmap == 32 then none else added)
    else skipped

-- `overlap` is that of `Sort.mmap_entry_swp`. With no entry the index of the last one wraps. An entry size of 0, which C cannot divide by, counts
-- as no entries.
unfoldable pub parse_mmap :
    (overlap : ℕ → ℕ → Words → Words) → (tag : ℕ) → Bytes → PhysicalMMap → Option PhysicalMMap
parse_mmap overlap tag mem dest =
    let entries = number_at 4 mem (tag + 4) / number_at 4 mem (tag + 8) in
    elim (copy_entries entries (tag + 16) mem (record dest { num_mmap = 0 })) [
      | none ↦ none
      | some d ↦
          let words = sort_mmap_entry_array overlap ram_sects d.num_mmap d.words in
          let last = ram_sects + 2 * ((d.num_mmap + 2 ^ 32 - 1) % 2 ^ 32) in
          some (record d { words = words; total_ram = (words last + words (last + 1)) % 2 ^ 64 })
    ]

-- The members of a section header that are read, `p` its address.
abbrev pub sym_str_table_idx : Bytes → ℕ → ℕ
sym_str_table_idx mem p = number_at 4 mem p

abbrev pub section_type : Bytes → ℕ → ℕ
section_type mem p = number_at 4 mem (p + 4)

abbrev pub section_addr : Bytes → ℕ → ℕ
section_addr mem p = number_at 8 mem (p + 16)

abbrev pub section_size : Bytes → ℕ → ℕ
section_size mem p = number_at 8 mem (p + 32)

abbrev pub section_of : (str_table : ℕ) → Bytes → ℕ → KernelSection
section_of str_table mem p = record {
  base = section_addr mem p;
  length = section_size mem p;
  section_name = (str_table + sym_str_table_idx mem p) % 2 ^ 64;
}

-- The loop of ELF_parse_section_headers over `n` headers from `p` on.
unfoldable pub copy_sections : (n p str_table : ℕ) → Bytes → PhysicalMMap → PhysicalMMap
copy_sections zero p str_table mem dest = dest
copy_sections (suc n) p str_table mem dest =
    let at = kernel_sects + 3 * dest.num_kernel_sects in
    let skipped = copy_sections n (p + 64) str_table mem dest in
    let added = copy_sections n (p + 64) str_table mem (record dest {
      words = store_section dest.words at (section_of str_table mem p);
      num_kernel_sects = dest.num_kernel_sects + 1;
    }) in
    if section_type mem p == 0 then skipped else added

unfoldable pub parse_section_headers :
    (start num_headers str_table_index : ℕ) → Bytes → PhysicalMMap → Option PhysicalMMap
parse_section_headers start num_headers str_table_index mem dest =
    let str_table = section_addr mem (start + 64 * str_table_index) in
    let d = copy_sections num_headers start str_table mem (record dest { num_kernel_sects = 0 }) in
    if ltb 32 num_headers
    then none
    else some
        (record d { words = sort_kernel_section_array kernel_sects d.num_kernel_sects d.words })

unfoldable pub parse_elf : (tag : ℕ) → Bytes → PhysicalMMap → Option PhysicalMMap
parse_elf tag mem dest =
    parse_section_headers (tag + 20) (number_at 4 mem (tag + 8)) (number_at 4 mem (tag + 16)) mem
      dest

-- The handling of one tag, and the size of a tag rounded up to 8 bytes, in 32 bits.
unfoldable pub parse_tag :
    (overlap : ℕ → ℕ → Words → Words) → (tag : ℕ) → Bytes → PhysicalMMap → Option PhysicalMMap
parse_tag overlap tag mem dest =
    if number_at 4 mem tag == 6
    then parse_mmap overlap tag mem dest
    else if number_at 4 mem tag == 9
    then parse_elf tag mem dest
    else some dest

abbrev pub rounded_size : Bytes → ℕ → ℕ
rounded_size mem tag = let size = (number_at 4 mem (tag + 4) + 7) % 2 ^ 32 in size - size % 8

-- The loop of BOOT_parse_multiboot from the tag `tag` on; the outer `none` is a loop that goes on.
unfoldable pub parse_tags :
    (overlap : ℕ → ℕ → Words → Words)
    → (fuel tag : ℕ) → Bytes
    → PhysicalMMap
    → Option (Option PhysicalMMap)
parse_tags overlap zero tag mem dest = none
parse_tags overlap (suc fuel) tag mem dest =
    let parsed = parse_tag overlap tag mem dest in
    let rest : Option (Option PhysicalMMap) = elim parsed [
      | none ↦ some none
      | some d ↦ parse_tags overlap fuel (tag + rounded_size mem tag) mem d
    ] in
    if number_at 4 mem tag == 0 then some (some dest) else rest

unfoldable pub parse_multiboot :
    (overlap : ℕ → ℕ → Words → Words) (fuel : ℕ) (dest : PhysicalMMap) (mb_magic mb_addr : ℕ)
    → Bytes
    → Option (Option PhysicalMMap)
parse_multiboot overlap fuel dest mb_magic mb_addr mem =
    let parsed = parse_tags overlap fuel ((mb_addr + 8) % 2 ^ 32) mem dest in
    if mb_magic == 0x36D76289 then parsed else some none
