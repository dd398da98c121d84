-- ===== src/Mm/Table.antt =====
-- Page tables in mm/memory.c: put_page, get_empty_page and do_no_page; linear_to_pte, disable_linear
-- and mm_read_only of mm/mm_test.c. The debug output on the serial port is left out.
pub mod Walk
pub mod New
pub mod Put
pub mod Fault
mod Examples
use neu_os.Prelude.{ℕ, ◌+◌, ◌-◌, ◌*◌, ◌/◌, ◌%◌, ◌||◌, Bool, not, ltb, leb, ◌==◌, if◌then◌else◌}
use neu_os.Mm.State.{
  Mm, Cmd, ok, pure, ◌>>=◌, ◌>>◌, Diag, page_outside, map_disagrees, no_free_page, low_mem, map_nr,
  frame, present, dir_entry, table_index, or7, and_not2, read, write, get_map, report, oom,
}
use neu_os.Mm.Page.{get_free_page, free_page, high_limit}

-- The two tests at the head of put_page, which only print.
unfoldable pub check_page : ℕ → ℕ → Cmd (Unit {0})
check_page page address = do
  high ← high_limit
  (if ltb page low_mem || leb high page then report (page_outside page address) else pure tt)
  n ← get_map (map_nr page)
  if n == 1 then pure tt else report (map_disagrees page address)

-- `*pg_tbl = tmp | 7` for a new page table, and the entry in it; 0 if there was no page for it.
unfoldable pub enter_new : ℕ → ℕ → ℕ → Cmd ℕ
enter_new page address tmp = if tmp == 0 then (do report no_free_page; pure 0) else (do
  write (dir_entry address) (or7 tmp)
  write (tmp + 4 * table_index address) (or7 page)
  pure page)

unfoldable pub put_page : ℕ → ℕ → Cmd ℕ
put_page page address = do
  check_page page address
  pde ← read (dir_entry address)
  if present pde
      then (do write (frame pde + 4 * table_index address) (or7 page); pure page)
      else get_free_page >>= enter_new page address

-- `free_page(tmp); oom();`
unfoldable pub give_up : ℕ → Cmd (Unit {0})
give_up page = do free_page page; oom

unfoldable pub get_empty_page : ℕ → Cmd (Unit {0})
get_empty_page address = do
  tmp ← get_free_page
  if tmp == 0
      then give_up tmp
      else (do put ← put_page tmp address; if put == 0 then give_up tmp else pure tt)

unfoldable pub do_no_page : ℕ → ℕ → Cmd (Unit {0})
do_no_page error_code address = do
  page ← get_free_page
  if page == 0
      then oom
      else (do put ← put_page page (frame address); if put == 0 then give_up page else pure tt)

-- The address of the page table entry, or 0.
unfoldable pub linear_to_pte : ℕ → Cmd ℕ
linear_to_pte addr = do
  pde ← read (dir_entry addr)
  if not (present pde) || ltb 0x1000 (dir_entry addr)
      then pure 0
      else pure (frame pde + table_index addr * 4)

unfoldable pub disable_linear : ℕ → Cmd (Unit {0})
unfolding linear_to_pte
disable_linear addr = do pte ← linear_to_pte addr; write pte 0

unfoldable pub mm_read_only : ℕ → Cmd (Unit {0})
unfolding linear_to_pte
mm_read_only addr = do pte ← linear_to_pte addr; entry ← read pte; write pte (and_not2 entry)
