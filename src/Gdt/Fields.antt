-- ===== src/Gdt/Fields.antt =====
-- src/arch/x86_64/hw_init.c: what the processor reads from a descriptor.
use marimba.Base.{ℕ, ◌+◌, ◌*◌, ◌^◌, ◌<◌, ◌≡◌, ◌≢◌, refl, false, arith, ◌==◌}
use marimba.Gdt.{GdtEntry, gdt_user_init, gdt_sys_init, user_entry, init_gdt, tss_size}

abbrev pub base_of : GdtEntry → ℕ
base_of e = e.base_0_15 + 2 ^ 16 * e.base_16_23 + 2 ^ 24 * e.base_24_31 + 2 ^ 32 * e.base_32_63

abbrev pub limit_of : GdtEntry → ℕ
limit_of e = e.limit_0_15 + 2 ^ 16 * e.limit_16_19

-- In the table of init_gdt the system entry 2 leads to the TSS, at any 64-bit address and with its size;
-- the code entry 1 starts at 0 and is a present 64-bit user segment; and the other entries are not
-- present.
pub init_gdt_lem :
    (tss i : ℕ)
    → tss < 2 ^ 64
    → i ≢ 1
    → i ≢ 2
    → (base_of (init_gdt tss 2) ≡ tss)
      × (limit_of (init_gdt tss 2) ≡ tss_size)
      × (((init_gdt tss 2).user_segment ≡ 0) × ((init_gdt tss 2).present ≡ 1))
      × ((base_of (init_gdt tss 1) ≡ 0)
          × ((init_gdt tss 1).user_segment ≡ 1)
          × ((init_gdt tss 1).present ≡ 1)
          × ((init_gdt tss 1).l ≡ 1))
      × ((init_gdt tss i).present ≡ 0)
unfolding init_gdt gdt_sys_init gdt_user_init user_entry
init_gdt_lem tss i fits not_code not_tss =
    let code : (i == 1) ≡ false = ground arith in
    let system : (i == 2) ≡ false = ground arith in
    (omega arith, refl, (refl, refl), (refl, refl, refl, refl), rw system (rw code refl))
