-- ===== src/Mm/Share/Examples.antt =====
-- Two page table entries, at 0x1000 and 0x1004: a page with one user and a page with two.
use neu_os.Prelude.{arith, [], ◌==◌, if◌then◌else◌}
use neu_os.Mm.State.{Mm}
use neu_os.Mm.Page.Free.{memory_end}
use neu_os.Mm.Share.{un_wp_page}
use neu_os.Mm.Share.Unshare.{Unshared, un_wp_page_shared}

abbrev memory : Mm
memory = record {
  phys = λ a. if a == 0x1000 then 0x20_0005 else if a == 0x1004 then 0x30_0005 else 9;
  mem_map = λ i. if i == 256 then 1 else if i == 512 then 2 else 0;
  high_memory = memory_end;
  log = [];
}

un_wp_page_shared_example : Unshared memory 0x1004 (un_wp_page 0x1004 memory)
un_wp_page_shared_example =
    un_wp_page_shared memory 0x1004 (omega arith, omega arith) (omega arith) (omega arith)
      (omega arith)
