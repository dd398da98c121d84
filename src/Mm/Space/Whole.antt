-- ===== src/Mm/Space/Whole.antt =====
-- free_page_tables of mm/memory.c on a whole address space.
use neu_os.Prelude.{
  ℕ, zero, suc, ◌+◌, ◌*◌, ◌%◌, ◌^◌, ◌≤◌, ◌<◌, ◌≡◌, refl, ◌≢◌, ◌∙◌, true, arith, ne→==_false,
}
use neu_os.Mm.State.{Mm, ok, low_mem, present, dir_entry}
use neu_os.Mm.Page.Free.{memory_end}
use neu_os.Mm.Space.{free_dirs, free_page_tables, dir_count}
use neu_os.Mm.Space.Dirs.{dir_uses, HasTable, free_dir}
use neu_os.Mm.Space.Owned.{
  uses, Owned, SpaceFreed, at_first, Owned-next, uses-next, step-absent, step-rest, step-users,
}

fewer : (a b : ℕ) {c : ℕ} → a + b ≤ c → a ≤ c
fewer a b le = omega arith

rest_enough : (a b x : ℕ) {b' c : ℕ} → b' ≡ b → x + a ≡ c → a + b ≤ c → b' ≤ x
rest_enough a b x p q le = omega (arith, p, q, le)

-- The outer loop of free_page_tables.
pub free_dirs-SpaceFreed :
    (n d : ℕ) (m : Mm)
    → d + 4 * n ≤ low_mem
    → m.high_memory ≤ memory_end
    → Owned n d m
    → ((i : ℕ) → uses n d m.phys i ≤ m.mem_map i)
    → (m' : Mm) × (free_dirs n d m ≡ ok tt m') × SpaceFreed n d m m'
unfolding free_dirs
free_dirs-SpaceFreed zero d m low top o enough = (
  m,
  refl,
  record {
    absent = λ j lt. absurd (omega arith);
    rest = λ b out tables. refl;
    users = λ i. omega arith;
    high_memory = refl;
  },
)
free_dirs-SpaceFreed (suc n) d m low top o enough =
    let mine : present (m.phys d) ≡ true → HasTable (m.phys d) m =
      at_first (λ a. present (m.phys a) ≡ true → HasTable (m.phys a) m) d
        (o.table 0 (omega arith)) in
    let (m₁, one, f) =
      free_dir n d m (omega arith) top mine
        (λ i. fewer (dir_uses (m.phys d) m.phys i) (uses n (d + 4) m.phys i) (enough i)) in
    let (m', run, s) =
      free_dirs-SpaceFreed n (d + 4) m₁ (omega arith) (omega (arith, f.high_memory))
        (Owned-next n d m m₁ low o f)
        (λ i.
          rest_enough (dir_uses (m.phys d) m.phys i) (uses n (d + 4) m.phys i) (m₁.mem_map i)
            (uses-next n d m m₁ low o f i) (f.users i) (enough i)) in
    (
      m',
      one ∙ run,
      record {
        absent = step-absent n d m m₁ low o f s;
        rest = step-rest n d m m₁ low o f s;
        users = step-users n d m m₁ low o f s;
        high_memory = s.high_memory ∙ f.high_memory;
      },
    )

-- free_page_tables gives a whole address space back: if it starts at a multiple of 4 MB above 0, each present
-- entry of its part of the page directory has a table of its own, the tables and the pages above 1 MB that they map
-- lie below the end of memory, which is at most 16 MB, and each page has as many uses as the entries and the
-- tables make of it, then the call returns 0; its directory entries are absent, each page has lost just those
-- uses, and no word changes but in these directory entries and tables.
pub free_page_tables-SpaceFreed :
    (from size : ℕ) (m : Mm)
    → from % 2 ^ 22 ≡ 0
    → from ≢ 0
    → from < 2 ^ 32
    → m.high_memory ≤ memory_end
    → Owned (dir_count size) (dir_entry from) m
    → ((i : ℕ) → uses (dir_count size) (dir_entry from) m.phys i ≤ m.mem_map i)
    → (m' : Mm) × (free_page_tables from size m ≡ ok 0 m')
      × SpaceFreed (dir_count size) (dir_entry from) m m'
unfolding free_page_tables
free_page_tables-SpaceFreed from size m aligned nonzero small top o enough =
    let (m', run, s) =
      free_dirs-SpaceFreed (dir_count size) (dir_entry from) m (omega arith) top o enough in
    (m', rw (free_page_tables, aligned, ne→==_false from 0 nonzero) (rw run refl), s)
