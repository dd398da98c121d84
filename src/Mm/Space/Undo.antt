-- ===== src/Mm/Space/Undo.antt =====
-- What fork shares, the end of the child gives back: the inner loops of copy_page_tables and
-- free_page_tables (mm/memory.c) one after the other.
use neu_os.Prelude.{
  ℕ, zero, suc, ◌+◌, ◌*◌, ◌≤◌, ◌<◌, ◌≡◌, refl, inl, inr, ◌∙◌, sym, ap, ap₂, true, ◌&&◌, arith,
  Bool-cases, ◌==◌,
}
use neu_os.Mm.State.{Mm, ok, frame}
use neu_os.Mm.Page.Free.{memory_end}
use neu_os.Mm.Space.{copy_entries, free_entries}
use neu_os.Mm.Space.Entry.{counted, page_index, inherited, one_if, sharers}
use neu_os.Mm.Space.Copy.{Apart, Inside, Copied, copy_entries-Copied}
use neu_os.Mm.Space.Free.{Low, Low-same, Below, Enough, free_entries-Freed}

-- The entry of the child maps the same page as that of the parent.
inherited-same :
    (e : ℕ)
    → (counted (inherited e 0) ≡ counted e)
      × (counted e ≡ true
          → (page_index (inherited e 0) ≡ page_index e) × (frame (inherited e 0) ≡ frame e))
inherited-same e = (ground arith, λ c. (ground arith, ground arith))

share-inherited :
    (e i : ℕ)
    → one_if (counted (inherited e 0) && (page_index (inherited e 0) == i))
      ≡ one_if (counted e && (page_index e == i))
share-inherited e i =
    let (same, more) = inherited-same e in
    elim (Bool-cases (counted e)) [
      | inl c ↦ rw (same, c) (rw ((more c).0) refl)
      | inr c ↦ rw (same, c) refl
    ]

sharers-inherited :
    (n from to i : ℕ) (p q : ℕ → ℕ)
    → ((k : ℕ) → k < n → q (to + 4 * k) ≡ inherited (p (from + 4 * k)) 0)
    → sharers n to q i ≡ sharers n from p i
sharers-inherited zero from to i p q same = refl
sharers-inherited (suc n) from to i p q same =
    let here : q to ≡ inherited (p from) 0 =
      ap q (omega arith) ∙ same 0 (omega arith) ∙ ap (λ a. inherited (p a) 0) (omega arith) in
    let rest : sharers n (to + 4) q i ≡ sharers n (from + 4) p i =
      sharers-inherited n (from + 4) (to + 4) i p q (λ k lt.
        ap q (omega arith)
        ∙ same (suc k) (omega arith)
        ∙ ap (λ a. inherited (p a) 0) (omega arith)) in
    ap₂ ◌+◌ (ap (λ e. one_if (counted e && (page_index e == i))) here ∙ share-inherited (p from) i)
      rest

-- The child's entries, where nothing stood before.
child-inherited :
    {n from to : ℕ} {m m' : Mm}
    → Copied n from to m m'
    → ((k : ℕ) → k < n → m.phys (to + 4 * k) ≡ 0)
    → (k : ℕ) → k < n
    → m'.phys (to + 4 * k) ≡ inherited (m.phys (from + 4 * k)) 0
child-inherited {from = from} {m = m} c blank k lt =
    c.child k lt ∙ ap (inherited (m.phys (from + 4 * k))) (blank k lt)

Low-inherited : (high e : ℕ) → Low high e → Low high (inherited e 0)
Low-inherited high e low c =
    let (same, more) = inherited-same e in
    let c' : counted e ≡ true = sym same ∙ c in omega (arith, (more c').1, low c')

-- A table of `n` entries that is copied into an empty one and then freed, as when a child ends right after
-- its fork, leaves each page with the users that it had, and the copy empty, provided that the two tables do not meet,
-- that no count goes over 255 in between, and that the pages above 1 MB that the entries map are pages
-- that mem_map counts, below the end of memory, which is at most 16 MB.
pub free_entries-copy_entries :
    (n from to : ℕ) (m : Mm)
    → Apart n from to
    → m.high_memory ≤ memory_end
    → Below n from m
    → Inside n from m.phys
    → ((i : ℕ) → m.mem_map i + sharers n from m.phys i < 256)
    → ((k : ℕ) → k < n → m.phys (to + 4 * k) ≡ 0)
    → (m' : Mm) × (m'' : Mm) × (copy_entries n from to m ≡ ok tt m')
      × (free_entries n to m' ≡ ok tt m'')
      × ((i : ℕ) → m''.mem_map i ≡ m.mem_map i)
      × ((k : ℕ) → k < n → m''.phys (to + 4 * k) ≡ 0)
free_entries-copy_entries n from to m apart top below inside room blank =
    let (m', copied, c) =
      copy_entries-Copied n from to m (λ i. omega (arith, room i)) apart inside in
    let same : (i : ℕ) → sharers n to m'.phys i ≡ sharers n from m.phys i =
      λ i. sharers-inherited n from to i m.phys m'.phys (child-inherited c blank) in
    let counts : (i : ℕ) → m'.mem_map i ≡ m.mem_map i + sharers n from m.phys i =
      λ i. omega (arith, c.users i, room i) in
    let below' : Below n to m' = λ k lt.
      Low-same (sym c.high_memory) (sym (child-inherited c blank k lt))
        (Low-inherited m.high_memory (m.phys (from + 4 * k)) (below k lt)) in
    let enough : Enough n to m' = λ i. omega (arith, counts i, same i) in
    let (m'', freed, f) = free_entries-Freed n to m' (omega (arith, c.high_memory)) below' enough in
    (m', m'', copied, freed, λ i. omega (arith, f.users i, counts i, same i), f.cleared)
