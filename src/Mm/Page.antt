-- ===== src/Mm/Page.antt =====
-- The page allocator of mm/memory.c: mem_init, get_free_page, free_page, and the count of calc_mem.
pub mod Alloc
pub mod Free
pub mod Init
mod Examples
use neu_os.Prelude.{
  ℕ, zero, suc, ◌+◌, ◌-◌, ◌*◌, ◌/◌, ◌%◌, Option, none, some, ltb, leb, ◌==◌, ◌||◌, if◌then◌else◌,
  update,
}
use neu_os.Prelude.Words.{sub32}
use neu_os.Mm.State.{
  Mm, Cmd, ok, panic, pure, ◌>>=◌, ◌>>◌, low_mem, paging_pages, used, page_size, map_nr, get_map,
  set_map, oom,
}

-- Both loops of mem_init: `mem_map[i++] = v`, `n` times.
unfoldable pub fill_map : ℕ → ℕ → ℕ → Cmd (Unit {0})
fill_map v zero i = pure tt
fill_map v (suc n) i = do set_map i v; fill_map v n (i + 1)

unfoldable pub set_high : ℕ → Cmd (Unit {0})
set_high end_mem m = ok tt (record m { high_memory = end_mem })

unfoldable pub mem_init : ℕ → ℕ → Cmd (Unit {0})
mem_init start_mem end_mem = do
  set_high end_mem
  fill_map used paging_pages 0
  fill_map 0 (sub32 end_mem start_mem / page_size) (map_nr start_mem)

-- `std; repne; scasb` from the last byte of mem_map: the index of the last free page below `n`.
unfoldable pub scan : ℕ → (ℕ → ℕ) → Option ℕ
scan zero map = none
scan (suc n) map = let rest = scan n map in if map n == 0 then some n else rest

-- `std; rep; stosl`: `n` words set to 0 from address `edi` down.
unfoldable pub clear_down : ℕ → ℕ → (ℕ → ℕ) → ℕ → ℕ
clear_down zero edi phys = phys
clear_down (suc n) edi phys = clear_down n (edi - 4) (update phys edi 0)

abbrev pub page_address : ℕ → ℕ
page_address i = i * page_size + low_mem

unfoldable pub take_page : ℕ → Mm → Mm
unfolding clear_down
take_page i m = record m {
  mem_map = update m.mem_map i 1;
  phys = clear_down 1024 (page_address i + 4092) m.phys;
}

unfoldable pub get_free_page : Cmd ℕ
unfolding scan take_page
get_free_page m = elim (scan paging_pages m.mem_map) [
  | none ↦ ok 0 m
  | some i ↦ ok (page_address i) (take_page i m)
]

-- The byte is counted down; at 0 it is put back to 0 and the kernel panics.
unfoldable pub drop_page : ℕ → Cmd (Unit {0})
drop_page i = do n ← get_map i; if n == 0 then (do set_map i 0; oom) else set_map i (n - 1)

unfoldable pub high_limit : Cmd ℕ
high_limit m = ok m.high_memory m

unfoldable pub free_page : ℕ → Cmd (Unit {0})
unfolding drop_page high_limit
free_page addr = do
  high ← high_limit
  if ltb addr low_mem || leb high addr then pure tt else drop_page (map_nr addr)

-- The first loop of calc_mem: the number of free pages below `n`.
unfoldable pub count_free : ℕ → (ℕ → ℕ) → ℕ
count_free zero map = 0
count_free (suc n) map = (if map n == 0 then 1 else 0) + count_free n map
