-- ===== src/Mm/Table/Put.antt =====
-- put_page of mm/memory.c: the entry that it makes, and what it leaves alone.
use neu_os.Prelude.{
  ℕ, ◌+◌, ◌*◌, ◌/◌, ◌^◌, ◌≤◌, ◌<◌, ◌≡◌, refl, ◌≢◌, inl, inr, ◌∙◌, ap, true, arith, update,
  update_self, update_ne, ℕ-cases,
}
use neu_os.Mm.State.{
  Mm, ok, low_mem, page_size, map_nr, frame, present, dir_entry, table_index, or7,
}
use neu_os.Mm.Page.{page_address, high_limit}
use neu_os.Mm.Page.Free.{memory_end}
use neu_os.Mm.Table.{check_page}
use neu_os.Mm.Table.Walk.{walk, walk-at, walk-same, HasTable, WellFormed, keeps-WellFormed}

-- What put_page asks of its page: above 1 MB, below the end of memory, and counted once.
pub record IsReady (m : Mm) (page : ℕ) : Type 0 where
  pub above : low_mem ≤ page
  pub below : page < m.high_memory
  pub inside : page < memory_end
  pub once : m.mem_map (map_nr page) ≡ 1

-- The page `i` is in use and holds no page table.
abbrev pub IsData : Mm → ℕ → Type 0
IsData m i = (m.mem_map i ≢ 0) × ((d : ℕ) → HasTable m d → frame (m.phys (4 * d)) ≢ page_address i)

-- What put_page does when it succeeds.
pub record Mapped (m : Mm) (page address : ℕ) (m' : Mm) : Type 0 where
  pub here : walk m' address ≡ or7 page
  pub elsewhere : (b : ℕ) → b < 2 ^ 32 → b / page_size ≢ address / page_size → walk m' b ≡ walk m b
  pub order : WellFormed m'
  pub content :
      (i : ℕ)
      → IsData m i
      → (k : ℕ) → k < 1024
      → m'.phys (page_address i + 4 * k) ≡ m.phys (page_address i + 4 * k)
  pub quiet : m'.log ≡ m.log

pub check_page-quiet :
    (m : Mm) (page address : ℕ) → IsReady m page → check_page page address m ≡ ok tt m
unfolding check_page high_limit
check_page-quiet m page address r = ground (arith, r.once)

module _ (m : Mm) (page address : ℕ) where
  -- The table entry that is written.
  abbrev pub slot : ℕ
  slot = frame (m.phys (dir_entry address)) + 4 * table_index address

  abbrev pub old_table : Mm
  old_table = record m { phys = update m.phys slot (or7 page) }

  module _ (w : WellFormed m) (small : address < 2 ^ 32)
      (there : present (m.phys (dir_entry address)) ≡ true) where
    table : HasTable m (address / 2 ^ 22)
    table = (omega arith, there)

    old-dir : (e : ℕ) → e < 1024 → old_table.phys (4 * e) ≡ m.phys (4 * e)
    old-dir e lt = update_ne m.phys slot (4 * e) (or7 page) (λ eq. omega (arith, w.above _ table))

    old-slot :
        (b : ℕ)
        → b < 2 ^ 32
        → b / page_size ≢ address / page_size
        → present (m.phys (dir_entry b)) ≡ true
        → frame (m.phys (dir_entry b)) + 4 * table_index b ≢ slot
    old-slot b lt other here e = elim (ℕ-cases (b / 2 ^ 22) (address / 2 ^ 22)) [
      | inl same ↦ absurd (omega (arith, ap (λ k. m.phys (4 * k)) same))
      | inr ne ↦ ne (w.apart _ _ (omega arith, here) table (omega arith))
    ]

    pub old-Mapped : Mapped m page address old_table
    old-Mapped = record {
      here =
          walk-at old_table address (old-dir (address / 2 ^ 22) (omega arith)) there
          ∙ update_self m.phys slot (or7 page);
      elsewhere = λ b lt other.
          walk-same m old_table b (old-dir (b / 2 ^ 22) (omega arith))
            (λ here. update_ne m.phys slot _ (or7 page) (old-slot b lt other here));
      order = keeps-WellFormed m old_table old-dir (λ j nz. nz) refl w;
      content =
          λ i used_ k lt. update_ne m.phys slot _ (or7 page) (λ e. used_.1 _ table (omega arith));
      quiet = refl;
    }
