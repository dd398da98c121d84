-- ===== src/Mm.antt =====
-- Physical pages, page tables and page faults: mm/memory.c, with linear_to_pte of mm/mm_test.c.
pub mod State
pub mod Page
pub mod Table
pub mod Share
pub mod Space
