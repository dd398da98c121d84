-- ===== src/Mm/Space/Entry.antt =====
-- One entry of the inner loop of copy_page_tables (mm/memory.c).
use neu_os.Prelude.{
  ℕ, zero, suc, ◌+◌, ◌%◌, ◌<◌, ◌≡◌, refl, ◌≢◌, inl, inr, Bool, true, ◌&&◌, arith, Bool-cases, ltb,
  ◌==◌, if◌then◌else◌, update, lt→ltb,
}
use neu_os.Mm.State.{Mm, ok, low_mem, paging_pages, map_nr, present, and_not2}
use neu_os.Mm.Space.{add_user, share_entry, copy_entries}

-- An entry that maps a page above 1 MB, without its writable bit, and the index of that page.
abbrev pub counted : ℕ → Bool
counted e = present e && ltb low_mem (and_not2 e)

abbrev pub page_index : ℕ → ℕ
page_index e = map_nr (and_not2 e)

-- The entry of the child, before which `old` stood there, and that of the parent.
abbrev pub inherited : ℕ → ℕ → ℕ
inherited e old = if present e then and_not2 e else old

abbrev pub protected : ℕ → ℕ
protected e = if counted e then and_not2 e else e

abbrev pub one_if : Bool → ℕ
one_if b = if b then 1 else 0

-- How many of `n` entries from `from` on map the page `i` above 1 MB.
abbrev pub sharers : ℕ → ℕ → (ℕ → ℕ) → ℕ → ℕ
sharers zero from phys i = 0
sharers (suc n) from phys i =
    one_if (counted (phys from) && (page_index (phys from) == i)) + sharers n (from + 4) phys i

-- Memory after one entry has been shared.
pub record Shared (from to : ℕ) (m m' : Mm) : Type 0 where
  pub phys :
      (a : ℕ)
      → m'.phys a ≡ (
          if a == from
          then protected (m.phys from)
          else if a == to
          then inherited (m.phys from) (m.phys to)
          else m.phys a)
  pub mem_map :
      (i : ℕ)
      → m'.mem_map i ≡ (
          if counted (m.phys from) && (page_index (m.phys from) == i)
          then (m.mem_map i + 1) % 256
          else m.mem_map i)
  pub high_memory : m'.high_memory ≡ m.high_memory

add_user-run :
    (i : ℕ) (m : Mm)
    → i < paging_pages
    → add_user i m ≡ ok tt (record m { mem_map = update m.mem_map i ((m.mem_map i + 1) % 256) })
unfolding add_user
add_user-run i m lt = rw (lt→ltb i paging_pages lt) (rw (lt→ltb i paging_pages lt) refl)

pub share_one :
    (n from to : ℕ) (m : Mm)
    → from ≢ to
    → (counted (m.phys from) ≡ true → page_index (m.phys from) < paging_pages)
    → (m' : Mm) × (copy_entries (suc n) from to m ≡ copy_entries n (from + 4) (to + 4) m')
      × Shared from to m m'
unfolding copy_entries share_entry
share_one n from to m apart inside = elim (Bool-cases (present (m.phys from))) [
  | inr absent ↦ (
    m,
    rw (copy_entries, absent) refl,
    record { phys = λ a. ground arith; mem_map = λ i. ground arith; high_memory = refl },
  )
  | inl there ↦ elim (Bool-cases (ltb low_mem (and_not2 (m.phys from)))) [
    | inr low ↦ (
      record m { phys = update m.phys to (and_not2 (m.phys from)) },
      rw (copy_entries, there) (rw (share_entry, low) refl),
      record { phys = λ a. ground arith; mem_map = λ i. ground arith; high_memory = refl },
    )
    | inl high ↦
        let written : Mm = record m {
          phys = update (update m.phys to (and_not2 (m.phys from))) from (and_not2 (m.phys from));
        } in
        (
          record m {
            phys = update (update m.phys to (and_not2 (m.phys from))) from (and_not2 (m.phys from));
            mem_map =
                update m.mem_map (page_index (m.phys from))
                  ((m.mem_map (page_index (m.phys from)) + 1) % 256);
          },
          rw (copy_entries, there)
              (rw (share_entry, high)
                (rw
                  (add_user-run (page_index (m.phys from)) written (inside (rw (there, high) refl)))
                  refl)),
          record { phys = λ a. ground arith; mem_map = λ i. ground arith; high_memory = refl },
        )
  ]
]
