-- ===== src/Mm/Table/New.antt =====
-- put_page of mm/memory.c when the linear address has no page table yet, and in general.
use neu_os.Prelude.{
  ℕ, ◌+◌, ◌*◌, ◌/◌, ◌^◌, ◌≤◌, ◌<◌, ◌≡◌, refl, ◌≢◌, ◌⊎◌, inl, inr, ◌∙◌, sym, ap, true, false, arith,
  update, update_self, update_ne, ℕ-cases, Bool-cases, ne→==_false,
}
use mathlib.Core.Path.{subst}
use neu_os.Mm.State.{
  Mm, Run, and_then, ok, low_mem, paging_pages, page_size, map_nr, frame, present, dir_entry,
  table_index, or7,
}
use neu_os.Mm.Page.{page_address, get_free_page}
use neu_os.Mm.Page.Alloc.{Fresh, Got, exhausted, got, get_free_page-Got}
use neu_os.Mm.Page.Free.{memory_end}
use neu_os.Mm.Table.{put_page, enter_new}
use neu_os.Mm.Table.Walk.{
  walk, walk-at, walk-none, walk-same, HasTable, WellFormed, dir-kept, not-table, map-grows,
}
use neu_os.Mm.Table.Put.{IsReady, Mapped, check_page-quiet, old_table, old-Mapped}

module _ (m₁ : Mm) (j page address : ℕ) where
  abbrev dir_at : ℕ
  dir_at = dir_entry address

  abbrev new_slot : ℕ
  new_slot = page_address j + 4 * table_index address

  -- The state after enter_new has linked the new table `j`.
  abbrev new_table : Mm
  new_table = record m₁ {
    phys = update (update m₁.phys dir_at (or7 (page_address j))) new_slot (or7 page);
  }

  new-away : (a : ℕ) → a ≢ dir_at → a ≢ new_slot → new_table.phys a ≡ m₁.phys a
  new-away a p q =
      update_ne (update m₁.phys dir_at (or7 (page_address j))) new_slot a (or7 page) q
      ∙ update_ne m₁.phys dir_at a (or7 (page_address j)) p

  new-dir_at : address < 2 ^ 32 → new_table.phys dir_at ≡ or7 (page_address j)
  new-dir_at small =
      update_ne (update m₁.phys dir_at (or7 (page_address j))) new_slot dir_at (or7 page)
        (λ e. omega arith)
      ∙ update_self m₁.phys dir_at (or7 (page_address j))

  module _ {m : Mm} (f : Fresh m j m₁) (w : WellFormed m) (small : address < 2 ^ 32)
      (absent : present (m.phys (dir_entry address)) ≡ false) where
    dir-else : (e : ℕ) → e < 1024 → e ≢ address / 2 ^ 22 → new_table.phys (4 * e) ≡ m.phys (4 * e)
    dir-else e lt ne = new-away (4 * e) (λ q. ne (omega arith)) (λ q. omega arith) ∙ dir-kept f e lt

    -- A table of the new state is the new one or an old one.
    old-or-new :
        (e : ℕ)
        → HasTable new_table e
        → ((e ≡ address / 2 ^ 22) × (frame (new_table.phys (4 * e)) ≡ page_address j))
          ⊎ (HasTable m e × (new_table.phys (4 * e) ≡ m.phys (4 * e)))
    old-or-new e (lt, here) = elim (ℕ-cases e (address / 2 ^ 22)) [
      | inl same ↦ inl (
        same,
        ap (λ k. frame (new_table.phys (4 * k))) same ∙ ap frame (new-dir_at small) ∙ omega arith,
      )
      | inr ne ↦ inr ((lt, ap present (sym (dir-else e lt ne)) ∙ here), dir-else e lt ne)
    ]

    new-apart :
        (e g : ℕ)
        → HasTable new_table e
        → HasTable new_table g
        → frame (new_table.phys (4 * e)) ≡ frame (new_table.phys (4 * g))
        → e ≡ g
    new-apart e g he hg same = elim (old-or-new e he) [
      | inl (at, tmp) ↦ elim (old-or-new g hg) [
        | inl (at', tmp') ↦ at ∙ sym at'
        | inr (old', eq') ↦ absurd (not-table f w g old' (ap frame (sym eq') ∙ sym same ∙ tmp))
      ]
      | inr (old, eq) ↦ elim (old-or-new g hg) [
        | inl (at', tmp') ↦ absurd (not-table f w e old (ap frame (sym eq) ∙ same ∙ tmp'))
        | inr (old', eq') ↦ w.apart e g old old' (ap frame (sym eq) ∙ same ∙ ap frame eq')
      ]
    ]

    taken : m₁.mem_map j ≢ 0
    taken e = omega (arith, sym (ap (λ map. map j) f.mem_map ∙ update_self m.mem_map j 1) ∙ e)

    new-counted :
        (e : ℕ)
        → HasTable new_table e
        → low_mem ≤ frame (new_table.phys (4 * e))
        → (frame (new_table.phys (4 * e)) < memory_end)
          × (m₁.mem_map (map_nr (frame (new_table.phys (4 * e)))) ≢ 0)
    new-counted e here lo = elim (old-or-new e here) [
      | inl (at, tmp) ↦ (
        omega (arith, tmp, f.place.below),
        subst (λ i. m₁.mem_map i ≢ 0) (omega (arith, tmp, f.place.below)) taken,
      )
      | inr (old, eq) ↦
          let (top, nz) = w.counted e old (subst (λ x. low_mem ≤ frame x) eq lo) in
          (
            subst (λ x. frame x < memory_end) (sym eq) top,
            subst (λ x. m₁.mem_map (map_nr (frame x)) ≢ 0) (sym eq) (map-grows f _ nz),
          )
    ]

    new-WellFormed : WellFormed new_table
    new-WellFormed = record {
      above = λ e here. elim (old-or-new e here) [
        | inl (at, tmp) ↦ omega (arith, tmp)
        | inr (old, eq) ↦ subst (λ x. page_size ≤ frame x) (sym eq) (w.above e old)
      ];
      apart = new-apart;
      counted = new-counted;
      reserved = λ i lt le. map-grows f i (w.reserved i lt (omega (arith, f.high_memory)));
    }

    new-elsewhere :
        (b : ℕ) → b < 2 ^ 32 → b / page_size ≢ address / page_size → walk new_table b ≡ walk m b
    new-elsewhere b lt other = elim (ℕ-cases (b / 2 ^ 22) (address / 2 ^ 22)) [
      | inl same ↦
          walk-at new_table b (ap (λ k. new_table.phys (4 * k)) same ∙ new-dir_at small)
            (ground arith)
          ∙ ap new_table.phys {y = page_address j + 4 * table_index b} (omega arith)
          ∙ new-away _ (λ e. omega arith) (λ e. omega arith)
          ∙ f.zeroed (table_index b) (omega arith)
          ∙ sym (walk-none m b (ap (λ k. m.phys (4 * k)) same) absent)
      | inr ne ↦ walk-same m new_table b (dir-else (b / 2 ^ 22) (omega arith) ne) (λ here.
          let above = w.above (b / 2 ^ 22) (omega arith, here) in
          let away = not-table f w (b / 2 ^ 22) (omega arith, here) in
          new-away _ (λ e. omega arith) (λ e. omega arith) ∙ f.kept _ (omega arith))
    ]

    new-Mapped : Mapped m page address new_table
    new-Mapped = record {
      here =
          walk-at new_table address (new-dir_at small) (ground arith)
          ∙ ap new_table.phys {y = new_slot} (omega arith)
          ∙ update_self (update m₁.phys dir_at (or7 (page_address j))) new_slot (or7 page);
      elsewhere = new-elsewhere;
      order = new-WellFormed;
      content = λ i used_ k lt.
          let ne : i ≢ j = λ e. used_.0 (ap m.mem_map e ∙ f.place.was_free) in
          new-away _ (λ e. omega arith) (λ e. omega arith) ∙ f.kept _ (omega arith);
      quiet = f.log;
    }

-- The two results of put_page.
pub data Put (m : Mm) (page address : ℕ) : Run ℕ → Type 0 where
  no_table :
      {m' : Mm}
      → ((i : ℕ) → i < paging_pages → m.mem_map i ≢ 0)
      → m'.mem_map ≡ m.mem_map
      → m'.high_memory ≡ m.high_memory
      → m'.phys ≡ m.phys
      → Put m page address (ok 0 m')
  mapped :
      {m' : Mm}
      → Mapped m page address m'
      → m'.mem_map (map_nr page) ≡ 1
      → m'.high_memory ≡ m.high_memory
      → Put m page address (ok page m')

module _ (m : Mm) (page address : ℕ) (ready : IsReady m page) where
  put_page-old :
      present (m.phys (dir_entry address)) ≡ true
      → put_page page address m ≡ ok page (old_table m page address)
  unfolding put_page
  put_page-old there = rw (check_page-quiet m page address ready) (rw there refl)

  put_page-new :
      present (m.phys (dir_entry address)) ≡ false
      → put_page page address m ≡ and_then (get_free_page m) (enter_new page address)
  unfolding put_page
  put_page-new absent = rw (check_page-quiet m page address ready) (rw absent refl)

  once_kept : {i : ℕ} {m' : Mm} → Fresh m i m' → m'.mem_map (map_nr page) ≡ 1
  once_kept {i} f = ap (λ map. map (map_nr page)) f.mem_map ∙ ground (arith, ready.once)

  enter_new-Put :
      {r : Run ℕ}
      → Got m r
      → WellFormed m
      → address < 2 ^ 32
      → present (m.phys (dir_entry address)) ≡ false
      → Put m page address (and_then r (enter_new page address))
  unfolding enter_new
  enter_new-Put (exhausted full) w small absent = no_table full refl refl refl
  enter_new-Put (got {i} {m'} f) w small absent =
      rw (ne→==_false (page_address i) 0 (omega arith))
        (mapped (new-Mapped m' i page address f w small absent) (once_kept f) f.high_memory)

  -- put_page, given a page in use once and below the end of memory, either finds no page for a page
  -- table and returns 0, or returns the page. Then the linear address is mapped to the page, present,
  -- writable and for the user; every other page of the address space is mapped as before; the page
  -- tables stay in order; the pages in use that are no page tables keep their content; and nothing is
  -- printed.
  pub put_page-Put : WellFormed m → address < 2 ^ 32 → Put m page address (put_page page address m)
  put_page-Put w small = elim (Bool-cases (present (m.phys (dir_entry address)))) [
    | inl there ↦
        rw (put_page-old there) (mapped (old-Mapped m page address w small there) ready.once refl)
    | inr absent ↦ rw (put_page-new absent) (enter_new-Put (get_free_page-Got m) w small absent)
  ]
