-- ===== src/Mm/Space/Child.antt =====
-- copy_page_tables of mm/memory.c on at most 4 MB, which is one directory entry: what a child gets in a fork.
use neu_os.Prelude.{
  ℕ, ◌+◌, ◌%◌, ◌^◌, ◌≤◌, ◌<◌, ◌≡◌, refl, ◌≢◌, inl, inr, true, false, arith, Bool-cases, ◌==◌,
  if◌then◌else◌,
}
use neu_os.Prelude.Words.{minus_one}
use neu_os.Mm.State.{Mm, dir_entry, Run, ok, paging_pages, frame, present}
use neu_os.Mm.Page.{get_free_page}
use neu_os.Mm.Page.Alloc.{Got, exhausted, got, get_free_page-Got}
use neu_os.Mm.Space.{copy_dirs, copy_page_tables, dir_count}
use neu_os.Mm.Space.Entry.{sharers}
use neu_os.Mm.Space.Inherit.{
  Source, Room, DirCopied, Copied-entered, entered-DirCopied, copy_dir_got,
}

-- The number of entries that copy_page_tables takes of each table.
abbrev pub per_table : ℕ → ℕ
per_table from = if from == 0 then 160 else 1024

-- The three results of copying one directory entry.
pub data Inherit (nr fd td : ℕ) (m : Mm) : Run ℕ → Type 0 where
  nothing_there : present (m.phys fd) ≡ false → Inherit nr fd td m (ok 0 m)
  no_page :
      present (m.phys fd) ≡ true
      → ((j : ℕ) → j < paging_pages → m.mem_map j ≢ 0)
      → Inherit nr fd td m (ok minus_one m)
  copied :
      {m' : Mm}
      → present (m.phys fd) ≡ true
      → DirCopied nr fd td m m'
      → Inherit nr fd td m (ok 0 m')

copy_dir_absent :
    (nr fd td : ℕ) (m : Mm)
    → present (m.phys td) ≡ false
    → present (m.phys fd) ≡ false
    → copy_dirs nr 1 fd td m ≡ ok 0 m
unfolding copy_dirs
copy_dir_absent nr fd td m absent not_there = rw (copy_dirs, absent) (rw not_there refl)

copy_dir_full :
    (nr fd td : ℕ) (m : Mm)
    → present (m.phys td) ≡ false
    → present (m.phys fd) ≡ true
    → get_free_page m ≡ ok 0 m
    → copy_dirs nr 1 fd td m ≡ ok minus_one m
unfolding copy_dirs
copy_dir_full nr fd td m absent there full = rw (copy_dirs, absent) (rw there (rw full refl))

copy_dirs_end : (nr fd td : ℕ) (m : Mm) → copy_dirs nr 0 fd td m ≡ ok 0 m
unfolding copy_dirs
copy_dirs_end nr fd td m = refl

module _ (nr fd td : ℕ) (m : Mm) (few : nr ≤ 1024) (low : td < 4096)
    (absent : present (m.phys td) ≡ false)
    (source : present (m.phys fd) ≡ true → Source nr (m.phys fd) m)
    (room : Room (sharers nr (frame (m.phys fd)) m.phys) m) where
  present-Inherit :
      present (m.phys fd) ≡ true
      → {r : Run ℕ} → Got m r
      → get_free_page m ≡ r
      → Inherit nr fd td m (copy_dirs nr 1 fd td m)
  present-Inherit there (exhausted full) e =
      rw (copy_dir_full nr fd td m absent there e) (no_page there full)
  present-Inherit there (got {i = i} {m' = m₁} f) e =
      let s = source there in
      let (m', run, c) = Copied-entered nr fd td m m₁ i few low s f room in
      rw (copy_dir_got nr fd td m m₁ i few low s f room 0 absent there e run) (
        rw (copy_dirs_end nr (fd + 4) (td + 4) m')
          (copied there (entered-DirCopied nr fd td m m₁ i few low s f room c)))

  copy_dir-Inherit : Inherit nr fd td m (copy_dirs nr 1 fd td m)
  copy_dir-Inherit = elim (Bool-cases (present (m.phys fd))) [
    | inl there ↦ present-Inherit there (get_free_page-Got m) refl
    | inr not_there ↦ rw (copy_dir_absent nr fd td m absent not_there) (nothing_there not_there)
  ]

few_entries : (from : ℕ) → per_table from ≤ 1024
few_entries from = ground arith

-- A copy of the page tables of at most 4 MB, as in a fork: if both spaces start at a multiple of 4 MB, the child's
-- directory entry is absent, the parent's, if present, names a table in use whose pages above 1 MB are pages that
-- mem_map counts, and the entries give no page 255 uses, then copy_page_tables returns 0 and changes nothing where
-- the parent's entry is absent, and returns -1 and changes nothing where no page is free; otherwise it returns 0, the
-- child's entry names a page that was free, with each entry of the parent's table in it, read-only, and 0
-- after the 160 or 1024 entries it takes, the parent's entries above 1 MB are read-only, each page has as many
-- uses more as entries map it, the new table one more, and no other word of memory changes.
pub copy_page_tables-Inherit :
    (from to size : ℕ) (m : Mm)
    → from % 2 ^ 22 ≡ 0
    → to % 2 ^ 22 ≡ 0
    → to < 2 ^ 32
    → dir_count size ≡ 1
    → present (m.phys (dir_entry to)) ≡ false
    → (present (m.phys (dir_entry from)) ≡ true
        → Source (per_table from) (m.phys (dir_entry from)) m)
    → Room (sharers (per_table from) (frame (m.phys (dir_entry from))) m.phys) m
    → Inherit (per_table from) (dir_entry from) (dir_entry to) m (copy_page_tables from to size m)
unfolding copy_page_tables
copy_page_tables-Inherit from to size m al al' small one absent source room =
    rw (copy_page_tables, al)
      (rw al' (
        rw one (
          copy_dir-Inherit (per_table from) (dir_entry from) (dir_entry to) m (few_entries from)
            (omega arith) absent source room)))
