-- ===== src/Mm/Table/Examples.antt =====
-- Memory with one page table, at 0x1000, for the first 4 MB, and a page at 0x200000 to map.
use neu_os.Prelude.{ℕ, ◌≡◌, arith, [], ◌==◌, if◌then◌else◌}
use neu_os.Mm.State.{Mm}
use neu_os.Mm.Page.Free.{memory_end}
use neu_os.Mm.Table.{do_no_page}
use neu_os.Mm.Table.Walk.{HasTable, WellFormed}
use neu_os.Mm.Table.Fault.{Served, do_no_page-Served}

abbrev memory : Mm
memory = record {
  phys = λ a. if a == 0 then 0x1007 else 0;
  mem_map = λ i. if i == 256 then 1 else 0;
  high_memory = memory_end;
  log = [];
}

only_first : (d : ℕ) → HasTable memory d → d ≡ 0
only_first d (lt, here) = ground arith

memory-WellFormed : WellFormed memory
memory-WellFormed = record {
  above = λ d here. ground (arith, only_first d here);
  apart = λ d e hd he same. omega (arith, only_first d hd, only_first e he);
  counted = λ d here lo. absurd (ground (arith, only_first d here));
  reserved = λ i lt le e. omega arith;
}

do_no_page-Served_example : Served memory 0x40_1234 (do_no_page 2 0x40_1234 memory)
do_no_page-Served_example = do_no_page-Served memory 2 0x40_1234 memory-WellFormed (omega arith)
