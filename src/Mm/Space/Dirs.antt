-- ===== src/Mm/Space/Dirs.antt =====
-- One directory entry of free_page_tables (mm/memory.c): its table is emptied and given back.
use neu_os.Prelude.{
  ℕ, suc, ◌+◌, ◌-◌, ◌*◌, ◌≤◌, ◌<◌, ◌≡◌, refl, ◌≢◌, inl, inr, ◌∙◌, sym, ap, true, false, arith,
  Bool-cases, ℕ-cases, ne→==_false, ==_refl, ◌==◌, if◌then◌else◌, update, update_self, update_ne,
}
use neu_os.Mm.State.{Mm, ok, low_mem, map_nr, frame, present}
use neu_os.Mm.Page.{free_page}
use neu_os.Mm.Page.Free.{memory_end, free_page_inside}
use neu_os.Mm.Space.{free_entries, free_dirs}
use neu_os.Mm.Space.Entry.{sharers, one_if}
use neu_os.Mm.Space.Free.{Below, Enough, Freed, free_entries-Freed}

-- The uses of page `i` by the entries of the table at `a`.
unfoldable pub table_uses : ℕ → (ℕ → ℕ) → ℕ → ℕ
table_uses a phys i = sharers 1024 a phys i

-- The uses that a present directory entry makes of page `i`: by the entries of its table, and by the table.
abbrev pub dir_uses : ℕ → (ℕ → ℕ) → ℕ → ℕ
dir_uses pde phys i =
    if present pde then table_uses (frame pde) phys i + one_if (map_nr (frame pde) == i) else 0

-- No word of the table that a present entry names.
abbrev pub Outside : ℕ → ℕ → Type 0
Outside pde b = present pde ≡ true → (k : ℕ) → k < 1024 → b ≢ frame pde + 4 * k

-- A table that a present entry names lies between 1 MB and the end of memory, and so do the pages above 1 MB that
-- its entries map.
pub record HasTable (pde : ℕ) (m : Mm) : Type 0 where
  pub above : low_mem ≤ frame pde
  pub inside : frame pde < m.high_memory
  pub entries : Below 1024 (frame pde) m

-- Memory after the directory entry at `d` has been freed.
pub record DirFreed (d : ℕ) (m m' : Mm) : Type 0 where
  pub absent : present (m'.phys d) ≡ false
  pub rest : (b : ℕ) → b ≢ d → Outside (m.phys d) b → m'.phys b ≡ m.phys b
  pub users : (i : ℕ) → m'.mem_map i + dir_uses (m.phys d) m.phys i ≡ m.mem_map i
  pub high_memory : m'.high_memory ≡ m.high_memory

-- The state after the table of the entry at `d` has been given back.
abbrev returned : ℕ → ℕ → Mm → Mm
returned d pde m = record m {
  phys = update m.phys d 0;
  mem_map = update m.mem_map (map_nr (frame pde)) (m.mem_map (map_nr (frame pde)) - 1);
}

used_again :
    (uses i : ℕ) {mapped whole : ℕ}
    → mapped + uses ≡ whole
    → uses + one_if (i == i) ≤ whole
    → mapped ≢ 0
used_again uses i e le z = ground (arith, ==_refl i)

returned_users :
    (mapped : ℕ → ℕ) (index i uses : ℕ) {whole : ℕ}
    → mapped i + uses ≡ whole
    → uses + one_if (index == i) ≤ whole
    → update mapped index (mapped index - 1) i + (uses + one_if (index == i)) ≡ whole
returned_users mapped index i uses e le = elim (ℕ-cases i index) [
  | inl same ↦ ground (arith, ap mapped same)
  | inr ne ↦ ground arith
]

module _ (d pde : ℕ) (m m₁ : Mm) (at : m.phys d ≡ pde) (there : present pde ≡ true)
    (low : d < low_mem) (t : HasTable pde m) (top : m.high_memory ≤ memory_end)
    (f : Freed 1024 (frame pde) m m₁) (enough : (i : ℕ) → dir_uses pde m.phys i ≤ m.mem_map i) where
  entry_kept : m₁.phys d ≡ pde
  entry_kept = f.rest d (λ k lt e. omega (arith, t.above)) ∙ at

  table_users : (i : ℕ) → m₁.mem_map i + table_uses (frame pde) m.phys i ≡ m.mem_map i
  unfolding table_uses
  table_users i = f.users i

  room : (i : ℕ) → table_uses (frame pde) m.phys i + one_if (map_nr (frame pde) == i) ≤ m.mem_map i
  room i = rw there at enough i

  used : m₁.mem_map (map_nr (frame pde)) ≢ 0
  used z =
      used_again (table_uses (frame pde) m.phys (map_nr (frame pde))) (map_nr (frame pde))
        (table_users (map_nr (frame pde))) (room (map_nr (frame pde))) z

  give_back :
      free_page (frame pde) m₁
      ≡ ok tt (record m₁ {
        mem_map = update m₁.mem_map (map_nr (frame pde)) (m₁.mem_map (map_nr (frame pde)) - 1);
      })
  give_back =
      free_page_inside m₁ (frame pde)
        (t.above, omega (arith, t.inside, f.high_memory), omega (arith, top, f.high_memory))
      ∙ rw (ne→==_false (m₁.mem_map (map_nr (frame pde))) 0 used) refl

  users-returned : (i : ℕ) → (returned d pde m₁).mem_map i + dir_uses pde m.phys i ≡ m.mem_map i
  users-returned i = rw there (
      returned_users m₁.mem_map (map_nr (frame pde)) i (table_uses (frame pde) m.phys i)
        (table_users i) (room i))

  free_dir_present :
      (n : ℕ)
      → free_entries 1024 (frame pde) m ≡ ok tt m₁
      → free_dirs (suc n) d m ≡ free_dirs n (d + 4) (returned d pde m₁)
  unfolding free_dirs
  free_dir_present n run =
      rw (free_dirs, at) (rw there (rw run (rw entry_kept (rw give_back refl))))

  returned-DirFreed : DirFreed d m (returned d pde m₁)
  returned-DirFreed = record {
    absent = ap present (update_self m₁.phys d 0);
    rest = λ b ne out.
        update_ne m₁.phys d b 0 ne
        ∙ f.rest b
            (λ k lt e. out (ap present at ∙ there) k lt (e ∙ ap (λ p. frame p + 4 * k) (sym at)));
    users =
        λ i. ap (λ p. (returned d pde m₁).mem_map i + dir_uses p m.phys i) at ∙ users-returned i;
    high_memory = f.high_memory;
  }

free_dir_absent :
    (n d : ℕ) (m : Mm) → present (m.phys d) ≡ false → free_dirs (suc n) d m ≡ free_dirs n (d + 4) m
unfolding free_dirs
free_dir_absent n d m e = rw (free_dirs, e) refl

absent-DirFreed : (d : ℕ) (m : Mm) → present (m.phys d) ≡ false → DirFreed d m m
absent-DirFreed d m e = record {
  absent = e;
  rest = λ b ne out. refl;
  users = λ i. rw e (omega arith);
  high_memory = refl;
}

le_of_sum : (a b : ℕ) {c : ℕ} → a + b ≤ c → a ≤ c
le_of_sum a b le = omega arith

table-Enough :
    (pde : ℕ) (m : Mm)
    → present pde ≡ true
    → ((i : ℕ) → dir_uses pde m.phys i ≤ m.mem_map i)
    → Enough 1024 (frame pde) m
unfolding table_uses
table-Enough pde m there enough i =
    let all : table_uses (frame pde) m.phys i + one_if (map_nr (frame pde) == i) ≤ m.mem_map i =
      rw there at enough i in
    le_of_sum (table_uses (frame pde) m.phys i) (one_if (map_nr (frame pde) == i)) all

-- One round of the outer loop of free_page_tables.
pub free_dir :
    (n d : ℕ) (m : Mm)
    → d < low_mem
    → m.high_memory ≤ memory_end
    → (present (m.phys d) ≡ true → HasTable (m.phys d) m)
    → ((i : ℕ) → dir_uses (m.phys d) m.phys i ≤ m.mem_map i)
    → (m' : Mm) × (free_dirs (suc n) d m ≡ free_dirs n (d + 4) m') × DirFreed d m m'
free_dir n d m low top table enough = elim (Bool-cases (present (m.phys d))) [
  | inr e ↦ (m, free_dir_absent n d m e, absent-DirFreed d m e)
  | inl there ↦
      let t = table there in
      let (m₁, run, f) =
        free_entries-Freed 1024 (frame (m.phys d)) m top t.entries
          (table-Enough (m.phys d) m there enough) in
      (
        returned d (m.phys d) m₁,
        free_dir_present d (m.phys d) m m₁ refl there low t top f enough n run,
        returned-DirFreed d (m.phys d) m m₁ refl there low t top f enough,
      )
]
