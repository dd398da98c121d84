-- ===== src/Mm/Space/Examples.antt =====
-- The table at 0x101000 maps the page at 0x108000, and is copied to 0x102000.
use mathlib.Core.Path.{subst}
use neu_os.Prelude.{
  ℕ, ◌+◌, ◌*◌, ◌<◌, ◌≤◌, ◌≡◌, refl, true, ◌||◌, [], arith, inl, ◌==◌, if◌then◌else◌,
}
use neu_os.Mm.State.{Mm, ok, present}
use neu_os.Mm.Space.Dirs.{HasTable, table_uses}
use neu_os.Mm.Space.Owned.{uses, Owned, SpaceFreed}
use neu_os.Mm.Space.Whole.{free_page_tables-SpaceFreed}
use neu_os.Mm.Space.{copy_entries, copy_page_tables, free_entries, free_page_tables}
use neu_os.Mm.Space.Copy.{Inside}
use neu_os.Mm.Space.Entry.{sharers}
use neu_os.Mm.Space.Inherit.{Source, Room}
use neu_os.Mm.Space.Child.{Inherit, copy_page_tables-Inherit}
use neu_os.Mm.Space.Free.{Below}
use neu_os.Mm.Space.Undo.{free_entries-copy_entries}

abbrev memory : Mm
memory = record {
  phys = λ a. if a == 0x101000 then 0x108007 else 0;
  mem_map = λ i. if i == 8 then 1 else 0;
  high_memory = 0x300000;
  log = [];
}

small-Below : Below 2 0x101000 memory
small-Below k lt = λ c. ground arith

small-Inside : Inside 2 0x101000 memory.phys
small-Inside k lt = λ h. ground arith

free_entries-copy_entries_example :
    (m' : Mm) × (m'' : Mm) × (copy_entries 2 0x101000 0x102000 memory ≡ ok tt m')
    × (free_entries 2 0x102000 m' ≡ ok tt m'')
    × ((i : ℕ) → m''.mem_map i ≡ memory.mem_map i)
    × ((k : ℕ) → k < 2 → m''.phys (0x102000 + 4 * k) ≡ 0)
free_entries-copy_entries_example =
    free_entries-copy_entries 2 0x101000 0x102000 memory (inl (omega arith)) (omega arith)
      small-Below small-Inside (λ i. ground arith) (λ k lt. ground arith)

-- A process with one table at 0x101000, which maps the page at 0x108000.
abbrev owner : Mm
owner = record {
  phys = λ a. if a == 64 then 0x101007 else if a == 0x101000 then 0x108007 else 0;
  mem_map = λ i. if (i == 8) || (i == 1) then 1 else 0;
  high_memory = 0x300000;
  log = [];
}

owner-Below : Below 1024 0x101000 owner
owner-Below k lt = λ c. ground arith

owner-HasTable : HasTable 0x101007 owner
owner-HasTable = record { above = omega arith; inside = omega arith; entries = owner-Below }

owner-Owned : Owned 1 64 owner
owner-Owned = record {
  table = λ j lt.
      subst
        (λ k. present (owner.phys (64 + 4 * k)) ≡ true → HasTable (owner.phys (64 + 4 * k)) owner)
        {x = 0} {y = j} (omega arith) (λ there. owner-HasTable);
  distinct = λ j k less lt. absurd (omega arith);
}

owner-uses : (i : ℕ) → uses 1 64 owner.phys i ≤ owner.mem_map i
unfolding table_uses
owner-uses i = ground arith

free_page_tables-SpaceFreed_example :
    (m' : Mm) × (free_page_tables 0x400_0000 0xa_0000 owner ≡ ok 0 m') × SpaceFreed 1 64 owner m'
free_page_tables-SpaceFreed_example =
    free_page_tables-SpaceFreed 0x400_0000 0xa_0000 owner refl (omega arith) (omega arith)
      (omega arith) owner-Owned owner-uses

-- The process forks into the empty part of the page directory at 0x800_0000.
owner-Inside : Inside 1024 0x101000 owner.phys
owner-Inside k lt = λ h. ground arith

owner-Source : Source 1024 0x101007 owner
owner-Source = record {
  above = omega arith;
  word = omega arith;
  used = λ high e. omega arith;
  inside = owner-Inside;
}

owner-Room : Room (sharers 1024 0x101000 owner.phys) owner
owner-Room j = ground arith

copy_page_tables-Inherit_example :
    Inherit 1024 64 128 owner (copy_page_tables 0x400_0000 0x800_0000 0xa_0000 owner)
copy_page_tables-Inherit_example =
    copy_page_tables-Inherit 0x400_0000 0x800_0000 0xa_0000 owner refl refl (omega arith) refl refl
      (λ there. owner-Source) owner-Room
