-- ===== src/Gdt/Tests.antt =====
-- The descriptor table at a concrete TSS.
