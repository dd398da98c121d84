-- ===== src/Mm/Space.antt =====
-- Whole address spaces in mm/memory.c, copy_page_tables and free_page_tables, and verify_area of
-- kernel/fork.c. invalidate() is left out: the model has no translation cache.
pub mod Entry
pub mod Copy
pub mod Free
pub mod Undo
pub mod Dirs
pub mod Owned
pub mod Whole
pub mod Child
pub mod Inherit
mod Examples
use neu_os.Prelude.{ℕ, Bool, zero, suc, ◌+◌, ◌/◌, ◌%◌, ◌^◌, ◌||◌, not, ltb, ◌==◌, if◌then◌else◌}
use neu_os.Prelude.Words.{add32, sub32, slt, minus_one}
use neu_os.Mm.State.{
  Cmd, panic, pure, ◌>>=◌, ◌>>◌, low_mem, map_nr, page_size, frame, present, dir_entry, or7,
  and_not2, read, write, get_map, set_map,
}
use neu_os.Mm.Page.{get_free_page, free_page}
use neu_os.Mm.Share.{write_verify}

-- `from & 0x3fffff`, as a test
abbrev misaligned : ℕ → Bool
misaligned a = not (a % 2 ^ 22 == 0)

-- `(size + 0x3fffff) >> 22`
abbrev dir_count : ℕ → ℕ
dir_count size = add32 size 0x3f_ffff / 2 ^ 22

-- The inner loop of free_page_tables: `n` entries from address `a` on.
unfoldable pub free_entries : ℕ → ℕ → Cmd (Unit {0})
free_entries zero a = pure tt
free_entries (suc n) a = do
  e ← read a
  (if present e then free_page (frame e) else pure tt)
  write a 0
  free_entries n (a + 4)

-- Its outer loop: `n` directory entries from address `d` on.
unfoldable pub free_dirs : ℕ → ℕ → Cmd (Unit {0})
free_dirs zero d = pure tt
free_dirs (suc n) d = do
  pde ← read d
  (if present pde
      then (do free_entries 1024 (frame pde); pde' ← read d; free_page (frame pde'); write d 0)
      else pure tt)
  free_dirs n (d + 4)

unfoldable pub free_page_tables : ℕ → ℕ → Cmd ℕ
free_page_tables from size =
    if misaligned from || (from == 0)
    then panic
    else (do free_dirs (dir_count size) (dir_entry from); pure 0)

-- `mem_map[i]++` on an unsigned char.
unfoldable pub add_user : ℕ → Cmd (Unit {0})
add_user i = do n ← get_map i; set_map i ((n + 1) % 256)

-- A present entry of copy_page_tables, read-only in the copy, and in the original if it is above 1 MB.
unfoldable pub share_entry : ℕ → ℕ → ℕ → Cmd (Unit {0})
share_entry from to this_page = do
  write to this_page
  if ltb low_mem this_page then (do write from this_page; add_user (map_nr this_page)) else pure tt

-- The inner loop of copy_page_tables.
unfoldable pub copy_entries : ℕ → ℕ → ℕ → Cmd (Unit {0})
copy_entries zero from to = pure tt
copy_entries (suc n) from to = do
  e ← read from
  (if present e then share_entry from to (and_not2 e) else pure tt)
  copy_entries n (from + 4) (to + 4)

-- Its outer loop, with `nr` entries to a table.
unfoldable pub copy_dirs : ℕ → ℕ → ℕ → ℕ → Cmd ℕ
copy_dirs nr zero from_dir to_dir = pure 0
copy_dirs nr (suc n) from_dir to_dir = do
  there ← read to_dir
  pde ← read from_dir
  if present there
      then panic
      else if not (present pde)
      then copy_dirs nr n (from_dir + 4) (to_dir + 4)
      else (do
        page ← get_free_page
        if page == 0 then pure minus_one else (do
          write to_dir (or7 page)
          copy_entries nr (frame pde) page
          copy_dirs nr n (from_dir + 4) (to_dir + 4)))

unfoldable pub copy_page_tables : ℕ → ℕ → ℕ → Cmd ℕ
copy_page_tables from to size =
    if misaligned from || misaligned to
    then panic
    else copy_dirs (if from == 0 then 160 else 1024) (dir_count size) (dir_entry from)
        (dir_entry to)

-- The loop of verify_area; the rounds bound its pages, of which 32 bits of size have at most 2 ^ 19.
unfoldable pub verify_loop : ℕ → ℕ → ℕ → Cmd (Unit {0})
verify_loop zero start size = pure tt
verify_loop (suc rounds) start size =
    if slt 0 size
    then (do write_verify start; verify_loop rounds (add32 start page_size) (sub32 size page_size))
    else pure tt

-- `base` is get_base(current->ldt[2]).
unfoldable pub verify_area : ℕ → ℕ → ℕ → Cmd (Unit {0})
verify_area base addr size =
    verify_loop (2 ^ 19 + 1) (add32 (frame addr) base) (add32 size (addr % page_size))
