-- ===== src/Boot/Sections.antt =====
-- ELF_parse_section_headers of src/elf.c, with the sort of src/utils.c that it ends with.
use marimba.Base.{
  subst, get_elem?, ℕ, zero, suc, ◌+◌, ◌*◌, ◌≤◌, ◌<◌, ◌≡◌, refl, ap, ◌∙◌, inl, inr, true, false,
  some, List, [], ◌∷◌, arith, ltb, ◌==◌, if◌then◌else◌, Bool-cases, length,
}
use marimba.Sort.{Words, KernelSection, store_section, sort_kernel_section_array}
use marimba.Sort.Kernel.{section_at, Rearranged, sort_kernel_section_array_lem}
use marimba.Boot.{
  Bytes, PhysicalMMap, kernel_sects, section_type, section_addr, section_of, copy_sections,
  parse_section_headers,
}

abbrev pub sections_at : Words → ℕ → KernelSection
sections_at = section_at kernel_sects

-- The sections of the headers that are used, in their order.
unfoldable pub used_sections : (n p str_table : ℕ) → Bytes → List KernelSection
used_sections zero p str_table mem = []
used_sections (suc n) p str_table mem =
    let rest = used_sections n (p + 64) str_table mem in
    if section_type mem p == 0 then rest else section_of str_table mem p ∷ rest

sections_at-store_section :
    (m : Words) (k i : ℕ) (s : KernelSection)
    → sections_at (store_section m (kernel_sects + 3 * k) s) i
      ≡ (if i == k then s else sections_at m i)
sections_at-store_section m k i s = ground arith

-- The array has these sections behind those that it had.
record Adds (found : List KernelSection) (d d' : PhysicalMMap) : Type 0 where
  count : d'.num_kernel_sects ≡ d.num_kernel_sects + length found
  kept : (i : ℕ) → i < d.num_kernel_sects → sections_at d'.words i ≡ sections_at d.words i
  added :
      (i : ℕ) (s : KernelSection)
      → get_elem? found i ≡ some s
      → sections_at d'.words (d.num_kernel_sects + i) ≡ s

-- A section behind those of `d`, and more behind that one.
with_section : PhysicalMMap → KernelSection → PhysicalMMap
with_section d s = record d {
  words = store_section d.words (kernel_sects + 3 * d.num_kernel_sects) s;
  num_kernel_sects = d.num_kernel_sects + 1;
}

behind-with_section :
    (s : KernelSection) (found : List KernelSection) (d d' : PhysicalMMap)
    → Adds found (with_section d s) d'
    → (i : ℕ) (t : KernelSection) → get_elem? (s ∷ found) i ≡ some t
    → sections_at d'.words (d.num_kernel_sects + i) ≡ t
unfolding with_section
behind-with_section s found d d' a zero t at =
    let n = d.num_kernel_sects in
    let same : s ≡ t = ground arith in
    let here : n + 0 ≡ n = omega arith in
    let self : (n == n) ≡ true = ground arith in
    rw here (a.kept n (omega arith) ∙ sections_at-store_section d.words n n s ∙ rw self same)
behind-with_section s found d d' a (suc i) t at =
    let there : d.num_kernel_sects + suc i ≡ d.num_kernel_sects + 1 + i = omega arith in
    rw there (a.added i t at)

with_section-Adds :
    (s : KernelSection) (found : List KernelSection) (d d' : PhysicalMMap)
    → Adds found (with_section d s) d'
    → Adds (s ∷ found) d d'
unfolding with_section
with_section-Adds s found d d' a =
    let n = d.num_kernel_sects in
    record {
      count = omega (arith, a.count);
      kept = λ i lt.
          let other : (i == n) ≡ false = ground arith in
          a.kept i (omega arith) ∙ sections_at-store_section d.words n i s ∙ rw other refl;
      added = behind-with_section s found d d' a;
    }

copy_sections-Adds :
    (n p str_table : ℕ) (mem : Bytes) (d : PhysicalMMap)
    → Adds (used_sections n p str_table mem) d (copy_sections n p str_table mem d)
unfolding copy_sections used_sections with_section
copy_sections-Adds zero p str_table mem d = record {
  count = omega arith;
  kept = λ i h. refl;
  added = λ i s at. absurd (ground arith);
}
copy_sections-Adds (suc n) p str_table mem d = elim (Bool-cases (section_type mem p == 0)) [
  | inl unused ↦ rw unused (copy_sections-Adds n (p + 64) str_table mem d)
  | inr used ↦ rw used (
      with_section-Adds (section_of str_table mem p) (used_sections n (p + 64) str_table mem) d _
        (copy_sections-Adds n (p + 64) str_table mem (with_section d (section_of str_table mem p))))
]

-- With at most 32 section headers: the kernel sections are those of the headers that are used, as many
-- and in an order in which no base is lower than the one before it.
pub parse_section_headers_lem :
    (start num str_table_index : ℕ) (mem : Bytes) (d : PhysicalMMap)
    → num ≤ 32
    → let used = used_sections num start (section_addr mem (start + 64 * str_table_index)) mem in
      (d' : PhysicalMMap) × (parse_section_headers start num str_table_index mem d ≡ some d')
      × (d'.num_kernel_sects ≡ length used)
      × ((i j : ℕ)
          → i ≤ j
          → j < length used
          → (sections_at d'.words i).base ≤ (sections_at d'.words j).base)
      × ((m : Words) × ((i : ℕ) (s : KernelSection)
            → get_elem? used i ≡ some s
            → sections_at m i ≡ s)
          × Rearranged kernel_sects (length used) m d'.words)
unfolding parse_section_headers
parse_section_headers_lem start num str_table_index mem d small =
    let str_table = section_addr mem (start + 64 * str_table_index) in
    let used = used_sections num start str_table mem in
    let empty : PhysicalMMap = record d { num_kernel_sects = 0 } in
    let copied = copy_sections-Adds num start str_table mem empty in
    let m = (copy_sections num start str_table mem empty).words in
    let fits : ltb 32 num ≡ false = ground arith in
    let (sorted, rearranged) = sort_kernel_section_array_lem kernel_sects (length used) m in
    let c = copy_sections num start str_table mem empty in
    let count : c.num_kernel_sects ≡ length used = omega (arith, copied.count) in
    let d' : PhysicalMMap = record c {
      words = sort_kernel_section_array kernel_sects (length used) m;
    } in
    let returns : parse_section_headers start num str_table_index mem d ≡ some d' =
      rw fits
        (ap (λ n. some (record c { words = sort_kernel_section_array kernel_sects n m })) count) in
    (
      d',
      returns,
      count,
      sorted,
      (
        m,
        (λ i s at.
            let here : 0 + i ≡ i = omega arith in
            subst (λ k. sections_at m k ≡ s) here (copied.added i s at)),
        rearranged,
      ),
    )
