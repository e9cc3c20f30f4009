-- ===== src/Pages/Init.antt =====
-- MMU_init of src/mmu.c: the free segments, the first page table and the identity tables.
use marimba.Base.{ℕ, Option, some, none, List, ltb, ◌==◌, if◌then◌else◌, length}
use marimba.Interrupts.{IrqState, IrqHandler}
use marimba.Mmu.{Segment, FrameState, VirtualState, alloc_frame, init_virtual, null}
use marimba.Mmu.Excluded.{compute_excluded}
use marimba.Mmu.Free.{compute_free_segments, FreeState}
use marimba.Mmu.Free.Pieces.{listed}
use marimba.Paging.Identity.{pt_init, pt_page_table_init}
use marimba.Pages.{with_words}

abbrev pub max_exclude_segments : ℕ
max_exclude_segments = 128

pub record MmuState : Type 0 where
  pub frames : FrameState
  pub page_table : ℕ
  pub virtual : VirtualState
  pub handlers : ℕ → IrqHandler

-- What the rest of the kernel gives: the addresses of the identity tables and of page_fault_handler.
pub record Tables : Type 0 where
  pub identity_p3 : ℕ
  pub identity_p2 : ℕ
  pub page_fault_handler : ℕ

pub data InitResult : Type 0 where
  failed : InitResult
  ready : MmuState → InitResult

abbrev pub first_frames : FreeState → (ℕ → ℕ) → FrameState
first_frames st words = record {
  free_segments = listed st.count st.head st;
  free_page_head = null;
  free_page_tail = null;
  words = words;
}

-- Behind the allocation of the first page table.
unfoldable pub make_tables :
    Tables → IrqState → (ℕ → IrqHandler) → (page_table : ℕ) → FrameState → InitResult
unfolding pt_init pt_page_table_init
make_tables tables irq handlers page_table frames =
    let (m, handlers') =
      pt_init tables.identity_p3 tables.identity_p2 tables.page_fault_handler frames.words
        handlers in
    if page_table == null
    then failed
    else ready (record {
      frames = with_words (pt_page_table_init tables.identity_p3 page_table m) frames;
      page_table = page_table;
      virtual = init_virtual irq;
      handlers = handlers';
    })

-- Behind the computation of the free segments.
unfoldable pub init_tables : Tables → IrqState → (ℕ → IrqHandler) → FrameState → InitResult
unfolding alloc_frame make_tables
init_tables tables irq handlers frames =
    let (page_table, frames') = alloc_frame frames in
    make_tables tables irq handlers page_table frames'

-- `none` is a loop of mmu_compute_free_segments that goes on, or a read through a NULL head.
unfoldable pub mmu_init :
    (fuel : ℕ) (ram kernel : List Segment)
    → Tables
    → IrqState
    → (ℕ → IrqHandler)
    → (ℕ → ℕ)
    → Option InitResult
unfolding compute_excluded compute_free_segments listed init_tables
mmu_init fuel ram kernel tables irq handlers words =
    if ltb max_exclude_segments (length kernel)
    then some failed
    else elim (compute_free_segments fuel ram (compute_excluded kernel)) [
      | none ↦ none
      | some st ↦ some (init_tables tables irq handlers (first_frames st words))
    ]
