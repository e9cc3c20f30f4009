-- ===== src/Sort/Tests.antt =====
-- Small arrays sorted by utils.c, and the theorems about them at these arrays.
use marimba.Base.{◌==◌, if◌then◌else◌, refl, arith, ◌<◌, ◌≡◌, ◌≤◌}
use marimba.Sort.{ℕ, Words, sort_kernel_section_array, sort_mmap_entry_array}
use marimba.Sort.Kernel.{section_at, Rearranged, sort_kernel_section_array_lem}
use marimba.Sort.Mmap.{sort_mmap_entry_array_ascending}

-- Three sections at word 10, with bases 7, 2 and 5.
abbrev sections : Words
sections a = if a == 10 then 7 else if a == 13 then 2 else if a == 16 then 5 else a

-- Two entries at word 10, with bases 7 and 2.
abbrev entries : Words
entries a = if a == 10 then 7 else if a == 12 then 2 else a

sorted_bases :
    let m = sort_kernel_section_array 10 3 sections in
    (m 10 ≡ 2) × (m 13 ≡ 5) × (m 16 ≡ 7) × (m 17 ≡ 11) × (m 19 ≡ 19)
unfolding sort_kernel_section_array
sorted_bases = (refl, refl, refl, refl, refl)

sort_kernel_section_array_example :
    let m' = sort_kernel_section_array 10 3 sections in
    ((i j : ℕ) → i ≤ j → j < 3 → (section_at 10 m' i).base ≤ (section_at 10 m' j).base)
    × Rearranged 10 3 sections m'
sort_kernel_section_array_example = sort_kernel_section_array_lem 10 3 sections

-- The two neighbours are in the wrong order, so that the sort swaps them: what becomes of them is up to the compiler.
sort_mmap_entry_array_swaps :
    (overlap : ℕ → ℕ → Words → Words)
    → sort_mmap_entry_array overlap 10 2 entries ≡ overlap 10 12 entries
unfolding sort_mmap_entry_array
sort_mmap_entry_array_swaps overlap = refl

sort_mmap_entry_array_ascending_example :
    sort_mmap_entry_array (λ p q m a. 0) 20 3 entries ≡ entries
sort_mmap_entry_array_ascending_example =
    sort_mmap_entry_array_ascending (λ p q m a. 0) 20 3 entries (λ i j h k. ground arith)
