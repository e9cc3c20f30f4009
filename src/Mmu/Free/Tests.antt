-- ===== src/Mmu/Free/Tests.antt =====
-- The free segments of small memory maps, and the theorems about them there.
use marimba.Base.{◌≡◌, refl, none, some, [], ◌∷◌, arith}
use marimba.Mmu.{Segment}
use marimba.Mmu.Free.{
  skip_null_page, remove_round, round_all, copy_ram, FreeState, put, empty_state, remove_excluded,
  compute_free_segments,
}
use marimba.Mmu.Free.Pieces.{listed, ram_at}
use marimba.Mmu.Free.Endless.{remove_excluded-endless}

-- The kernel at 1 MB, and a section of it further on.
abbrev kernel : Segment
kernel = record { base = 0x100000; len = 0x5000 }

abbrev further : Segment
further = record { base = 0x200000; len = 0x1000 }

-- RAM that lies whole within the kernel.
abbrev covered : FreeState
covered = put 0 (ram_at 0x101000 0x1000) empty_state

remove_excluded-endless_example : remove_excluded 1000 (some 0) (kernel ∷ []) none covered ≡ none
remove_excluded-endless_example =
    remove_excluded-endless 1000 0 kernel [] none covered (omega arith) (omega arith) (omega arith)

-- RAM from address 0 on loses its first page, and a piece of less than a page is dropped.
rounds :
    elim (compute_free_segments 9
      (record { base = 0; len = 0x3000 } ∷ record { base = 0x8010; len = 0x1FF0 } ∷ [])
      []) [ none ↦ [] | some st ↦ listed 9 st.head st ]
    ≡ record { base = 0x1000; len = 0x2000 } ∷ record { base = 0x9000; len = 0x1000 } ∷ []
unfolding compute_free_segments copy_ram round_all remove_excluded remove_round skip_null_page
    listed
rounds = refl
