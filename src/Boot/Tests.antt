-- ===== src/Boot/Tests.antt =====
-- The boot information on small inputs, and the theorems about it there.
use marimba.Base.{
  get_elem?, ℕ, ◌≤◌, ◌<◌, ◌≡◌, refl, Option, none, some, [], ◌∷◌, arith, ◌==◌, if◌then◌else◌,
  length, get_or,
}
use marimba.Sort.{Words, KernelSection, sort_kernel_section_array, sort_mmap_entry_array}
use marimba.Sort.Kernel.{Rearranged}
use marimba.Boot.{
  sort_mmap_entry_array, copy_entries, sort_kernel_section_array, parse_mmap, copy_sections,
  parse_tag, Bytes, PhysicalMMap, number_at, kernel_sects, section_addr, parse_section_headers,
  parse_multiboot, parse_tags,
}
use marimba.Boot.Sections.{sections_at, used_sections, parse_section_headers_lem}

-- Two used headers, at 0x3000 and at 0x1000, and an unused one between them.
abbrev headers : Bytes
headers a =
    if a == 4
    then 1
    else if a == 17
    then 0x30
    else if a == 132
    then 3
    else if a == 145
    then 0x10
    else 0

abbrev nothing : PhysicalMMap
nothing = record { total_ram = 0; num_mmap = 0; num_kernel_sects = 0; words = λ a. 0 }

parse_section_headers_lem_example :
    let used = used_sections 3 0 (section_addr headers 64) headers in
    (d' : PhysicalMMap) × (parse_section_headers 0 3 1 headers nothing ≡ some d')
    × (d'.num_kernel_sects ≡ length used)
    × ((i j : ℕ)
        → i ≤ j
        → j < length used
        → (sections_at d'.words i).base ≤ (sections_at d'.words j).base)
    × ((m : Words) × ((i : ℕ) (s : KernelSection) → get_elem? used i ≡ some s → sections_at m i ≡ s)
        × Rearranged kernel_sects (length used) m d'.words)
parse_section_headers_lem_example = parse_section_headers_lem 0 3 1 headers nothing (omega arith)

abbrev words_of : Option PhysicalMMap → Words
words_of none = λ a. 0
words_of (some d) = d.words

sorted_bases :
    let words = words_of (parse_section_headers 0 3 1 headers nothing) in
    (words 67 ≡ 0x1000) × (words 70 ≡ 0x3000)
unfolding parse_section_headers copy_sections number_at sort_kernel_section_array
sorted_bases = (refl, refl)

-- One available and one reserved entry behind the tag at 8, and the tag that ends the list.
abbrev one_entry : Bytes
one_entry a =
    get_or
      (0 ∷ 0 ∷ 0 ∷ 0 ∷ 0 ∷ 0 ∷ 0 ∷ 0 ∷ 6 ∷ 0 ∷ 0 ∷ 0 ∷ 64 ∷ 0 ∷ 0 ∷ 0 ∷ 24 ∷ 0 ∷ 0 ∷ 0 ∷ 0 ∷ 0 ∷ 0
        ∷ 0 ∷ 0 ∷ 16 ∷ 0 ∷ 0 ∷ 0 ∷ 0 ∷ 0 ∷ 0 ∷ 0 ∷ 32 ∷ 0 ∷ 0 ∷ 0 ∷ 0 ∷ 0 ∷ 0 ∷ 1 ∷ [])
      a 0

abbrev numbers_of : Option (Option PhysicalMMap) → ℕ × ℕ
numbers_of (some (some d)) = (d.num_mmap, d.total_ram)
numbers_of (some none) = (0, 0)
numbers_of none = (0, 0)

one_found : numbers_of (parse_multiboot (λ p q m. m) 3 nothing 0x36D76289 0 one_entry) ≡ (1, 0x3000)
unfolding parse_multiboot parse_tags parse_tag parse_mmap copy_entries number_at
    sort_mmap_entry_array
one_found = refl

-- A tag of another type without a size is read again and again.
stays : parse_tags (λ p q m. m) 100 0 (λ a. if a == 0 then 1 else 0) nothing ≡ none
unfolding parse_tags parse_tag number_at
stays = refl
