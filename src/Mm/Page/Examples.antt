-- ===== src/Mm/Page/Examples.antt =====
-- 16 MB of memory, every page of it free but the one below the last.
use neu_os.Prelude.{ℕ, suc, ◌+◌, ◌≡◌, refl, some, [], ◌==◌, if◌then◌else◌}
use neu_os.Mm.State.{Mm, ok, paging_pages}
use neu_os.Mm.Page.{scan, take_page, page_address, get_free_page}
use neu_os.Mm.Page.Alloc.{Got, get_free_page-Got}
use neu_os.Mm.Page.Free.{memory_end}

abbrev memory : Mm
memory = record {
  phys = λ a. a + 3;
  mem_map = λ i. if i == 3838 then 1 else 0;
  high_memory = memory_end;
  log = [];
}

get_free_page-Got_example : Got memory (get_free_page memory)
get_free_page-Got_example = get_free_page-Got memory

scan-last : (n : ℕ) (map : ℕ → ℕ) → map n ≡ 0 → scan (suc n) map ≡ some n
unfolding scan
scan-last n map e = rw e refl

get_free_page-scan :
    (m : Mm) (i : ℕ)
    → scan paging_pages m.mem_map ≡ some i
    → get_free_page m ≡ ok (page_address i) (take_page i m)
unfolding get_free_page
get_free_page-scan m i found = rw (found, get_free_page) refl

taken : get_free_page memory ≡ ok (page_address 3839) (take_page 3839 memory)
taken = get_free_page-scan memory 3839 (scan-last 3839 memory.mem_map refl)
