-- ===== src/Mm/Share.antt =====
-- Write protection and shared pages in mm/memory.c: un_wp_page, do_wp_page, write_verify.
pub mod Unshare
mod Examples
use neu_os.Prelude.{ℕ, ◌+◌, ◌-◌, ◌*◌, ◌/◌, ◌%◌, Bool, true, false, ltb, leb, ◌==◌, if◌then◌else◌}
use neu_os.Mm.State.{
  Mm, Cmd, ok, pure, ◌>>=◌, ◌>>◌, low_mem, map_nr, frame, present, dir_entry, table_index, or7, or2,
  read, write, get_map, set_map, oom,
}
use neu_os.Mm.Page.{get_free_page}

-- `old_page >= LOW_MEM && mem_map[MAP_NR(old_page)] == 1`
unfoldable pub sole_user : ℕ → Cmd Bool
sole_user old_page =
    if leb low_mem old_page then (do n ← get_map (map_nr old_page); pure (n == 1)) else pure false

-- `mem_map[i]--` on an unsigned char.
unfoldable pub drop_count : ℕ → Cmd (Unit {0})
drop_count i = do n ← get_map i; set_map i ((n + 255) % 256)

-- The page is replaced by a new one. The macro copy_page is not called.
unfoldable pub replace_page : ℕ → ℕ → ℕ → Cmd (Unit {0})
replace_page table_entry old_page new_page = if new_page == 0 then oom else (do
  (if leb low_mem old_page then drop_count (map_nr old_page) else pure tt)
  write table_entry (or7 new_page))

unfoldable pub un_wp_page : ℕ → Cmd (Unit {0})
un_wp_page table_entry = do
  entry ← read table_entry
  sole ← sole_user (frame entry)
  if sole
      then write table_entry (or2 entry)
      else get_free_page >>= replace_page table_entry (frame entry)

unfoldable pub do_wp_page : ℕ → ℕ → Cmd (Unit {0})
unfolding un_wp_page
do_wp_page error_code address = do
  pde ← read (dir_entry address)
  un_wp_page (4 * table_index address + frame pde)

unfoldable pub write_verify : ℕ → Cmd (Unit {0})
unfolding un_wp_page
write_verify address = do
  page ← read (dir_entry address)
  if present page
      then (do
        entry ← read (frame page + 4 * table_index address)
        if entry % 4 == 1 then un_wp_page (frame page + 4 * table_index address) else pure tt)
      else pure tt
