-- ===== src/Mm/Table/Walk.antt =====
-- The two-level table as the processor walks it, and when the tables are in order.
use mathlib.Core.Path.{subst}
use neu_os.Prelude.{
  ℕ, ◌+◌, ◌*◌, ◌≤◌, ◌<◌, ◌≡◌, refl, ◌≢◌, inl, inr, ◌∙◌, sym, ap, true, arith, if◌then◌else◌, update,
  Bool-cases, false,
}
use neu_os.Mm.State.{
  Mm, low_mem, paging_pages, page_size, map_nr, frame, present, dir_entry, table_index,
}
use neu_os.Mm.Page.{page_address}
use neu_os.Mm.Page.Alloc.{Fresh}
use neu_os.Mm.Page.Free.{memory_end}

-- The page table entry for a linear address: 0, not present, where there is no page table.
abbrev pub walk : Mm → ℕ → ℕ
walk m address =
    if present (m.phys (dir_entry address))
    then m.phys (frame (m.phys (dir_entry address)) + 4 * table_index address)
    else 0

-- The directory entry `d` holds a page table.
abbrev pub HasTable : Mm → ℕ → Type 0
HasTable m d = (d < 1024) × (present (m.phys (4 * d)) ≡ true)

pub record WellFormed (m : Mm) : Type 0 where
  pub above : (d : ℕ) → HasTable m d → page_size ≤ frame (m.phys (4 * d))
  pub apart :
      (d e : ℕ)
      → HasTable m d
      → HasTable m e
      → frame (m.phys (4 * d)) ≡ frame (m.phys (4 * e))
      → d ≡ e
  pub counted :
      (d : ℕ)
      → HasTable m d
      → low_mem ≤ frame (m.phys (4 * d))
      → (frame (m.phys (4 * d)) < memory_end) × (m.mem_map (map_nr (frame (m.phys (4 * d)))) ≢ 0)
  pub reserved : (i : ℕ) → i < paging_pages → m.high_memory ≤ page_address i → m.mem_map i ≢ 0

pub walk-at :
    (m : Mm) (a : ℕ) {x : ℕ}
    → m.phys (dir_entry a) ≡ x
    → present x ≡ true
    → walk m a ≡ m.phys (frame x + 4 * table_index a)
walk-at m a e here = rw (e, here)

pub walk-none :
    (m : Mm) (a : ℕ) {x : ℕ} → m.phys (dir_entry a) ≡ x → present x ≡ false → walk m a ≡ 0
walk-none m a e absent = rw (e, absent)

-- A walk reads one directory entry and one table entry.
pub walk-same :
    (m m' : Mm) (a : ℕ)
    → m'.phys (dir_entry a) ≡ m.phys (dir_entry a)
    → (present (m.phys (dir_entry a)) ≡ true
        → m'.phys (frame (m.phys (dir_entry a)) + 4 * table_index a)
          ≡ m.phys (frame (m.phys (dir_entry a)) + 4 * table_index a))
    → walk m' a ≡ walk m a
walk-same m m' a dir slot = elim (Bool-cases (present (m.phys (dir_entry a)))) [
  | inl here ↦ walk-at m' a dir here ∙ slot here ∙ sym (walk-at m a refl here)
  | inr absent ↦ walk-none m' a dir absent ∙ sym (walk-none m a refl absent)
]

-- A step that leaves the directory alone, frees no page and moves no limit keeps the order.
module _ (m m' : Mm) (dir : (d : ℕ) → d < 1024 → m'.phys (4 * d) ≡ m.phys (4 * d))
    (grows : (j : ℕ) → m.mem_map j ≢ 0 → m'.mem_map j ≢ 0)
    (high : m'.high_memory ≡ m.high_memory) where
  HasTable-back : {d : ℕ} → HasTable m' d → HasTable m d
  HasTable-back {d} (lt, here) = (lt, ap present (sym (dir d lt)) ∙ here)

  pub keeps-WellFormed : WellFormed m → WellFormed m'
  keeps-WellFormed w = record {
    above = λ d here.
        subst (λ x. page_size ≤ frame x) (sym (dir d here.0)) (w.above d (HasTable-back here));
    apart = λ d e hd he same.
        w.apart d e (HasTable-back hd) (HasTable-back he)
          (ap frame (sym (dir d hd.0)) ∙ same ∙ ap frame (dir e he.0));
    counted = λ d here lo.
        let (top, nz) =
          w.counted d (HasTable-back here) (subst (λ x. low_mem ≤ frame x) (dir d here.0) lo) in
        (
          subst (λ x. frame x < memory_end) (sym (dir d here.0)) top,
          subst (λ x. m'.mem_map (map_nr (frame x)) ≢ 0) (sym (dir d here.0)) (grows _ nz),
        );
    reserved = λ i lt le. grows i (w.reserved i lt (subst (λ x. x ≤ page_address i) high le));
  }

module _ {m m' : Mm} {i : ℕ} (f : Fresh m i m') where
  -- The page directory is not in the page that is taken.
  pub dir-kept : (d : ℕ) → d < 1024 → m'.phys (4 * d) ≡ m.phys (4 * d)
  dir-kept d lt = f.kept (4 * d) (inl (omega arith))

  -- No page table is in the page that is taken.
  pub not-table : WellFormed m → (d : ℕ) → HasTable m d → frame (m.phys (4 * d)) ≢ page_address i
  not-table w d here e =
      (w.counted d here (omega arith)).1
        (ap m.mem_map (ap map_nr e ∙ omega (arith, f.place.below)) ∙ f.place.was_free)

  pub map-grows : (j : ℕ) → m.mem_map j ≢ 0 → m'.mem_map j ≢ 0
  map-grows j nz e =
      let now : update m.mem_map i 1 j ≡ 0 = ap (λ map. map j) (sym f.mem_map) ∙ e in
      ground (arith, now)

  pub Fresh-WellFormed : WellFormed m → WellFormed m'
  Fresh-WellFormed w = keeps-WellFormed m m' dir-kept map-grows f.high_memory w
