-- ===== src/Mm/Space/Free.antt =====
-- The inner loop of free_page_tables (mm/memory.c), which gives back what the entries of a table map.
use neu_os.Prelude.{
  ℕ, zero, suc, ◌+◌, ◌-◌, ◌*◌, ◌≤◌, ◌<◌, ◌≡◌, refl, ◌≢◌, inl, inr, ◌∙◌, sym, ap, true, ◌&&◌, arith,
  Bool-cases, ℕ-cases, ne→==_false, leb, ◌==◌, if◌then◌else◌, update,
}
use neu_os.Mm.State.{Mm, ok, low_mem, map_nr, frame, present}
use neu_os.Mm.Page.{free_page}
use neu_os.Mm.Page.Free.{memory_end, free_page_inside, free_page_outside}
use neu_os.Mm.Space.{free_entries}
use neu_os.Mm.Space.Entry.{counted, page_index, sharers}
use neu_os.Mm.Space.Copy.{sharers_same}

-- Memory after one entry has been given back.
record Dropped (a : ℕ) (m m' : Mm) : Type 0 where
  phys : (b : ℕ) → m'.phys b ≡ (if b == a then 0 else m.phys b)
  mem_map :
      (i : ℕ)
      → m'.mem_map i ≡ (
          if counted (m.phys a) && (page_index (m.phys a) == i)
          then m.mem_map i - 1
          else m.mem_map i)
  high_memory : m'.high_memory ≡ m.high_memory

counted-frame : (e : ℕ) → present e ≡ true → counted e ≡ leb low_mem (frame e)
counted-frame e there = ground arith

page_index-frame : (e : ℕ) → counted e ≡ true → page_index e ≡ map_nr (frame e)
page_index-frame e c = ground arith

-- What must hold of an entry to be given back: a page above 1 MB lies below the end of memory and is in use.
abbrev Held : Mm → ℕ → Type 0
Held m e = counted e ≡ true → (frame e < m.high_memory) × (m.mem_map (page_index e) ≢ 0)

free_held :
    (m : Mm) (e : ℕ)
    → counted e ≡ true
    → m.high_memory ≤ memory_end
    → frame e < m.high_memory
    → m.mem_map (page_index e) ≢ 0
    → free_page (frame e) m
      ≡ ok tt (record m {
        mem_map = update m.mem_map (map_nr (frame e)) (m.mem_map (map_nr (frame e)) - 1);
      })
free_held m e c top below used =
    let used' : m.mem_map (map_nr (frame e)) ≢ 0 =
      λ z. used (ap m.mem_map (page_index-frame e c) ∙ z) in
    free_page_inside m (frame e) (ground arith, below, top)
    ∙ rw (ne→==_false (m.mem_map (map_nr (frame e))) 0 used') refl

update-counted :
    (m : Mm) (e : ℕ)
    → counted e ≡ true
    → (i : ℕ)
    → update m.mem_map (map_nr (frame e)) (m.mem_map (map_nr (frame e)) - 1) i
      ≡ (if counted e && (page_index e == i) then m.mem_map i - 1 else m.mem_map i)
update-counted m e c i = rw c (elim (ℕ-cases i (map_nr (frame e))) [
  | inl same ↦ ground (arith, page_index-frame e c, ap m.mem_map same)
  | inr ne ↦ ground (arith, page_index-frame e c)
])

free_one :
    (n a : ℕ) (m : Mm)
    → m.high_memory ≤ memory_end
    → Held m (m.phys a)
    → (m' : Mm) × (free_entries (suc n) a m ≡ free_entries n (a + 4) m') × Dropped a m m'
unfolding free_entries
free_one n a m top held = elim (Bool-cases (present (m.phys a))) [
  | inr absent ↦ (
    record m { phys = update m.phys a 0 },
    rw (free_entries, absent) refl,
    record { phys = λ b. ground arith; mem_map = λ i. ground arith; high_memory = refl },
  )
  | inl there ↦ elim (Bool-cases (counted (m.phys a))) [
    | inr low ↦ (
      record m { phys = update m.phys a 0 },
      rw (free_entries, there)
          (rw
            (free_page_outside m (frame (m.phys a))
              (inl (ground (arith, counted-frame (m.phys a) there))))
            refl),
      record { phys = λ b. ground arith; mem_map = λ i. rw low refl; high_memory = refl },
    )
    | inl high ↦
        let (below, used) = held high in
        let index : page_index (m.phys a) ≡ map_nr (frame (m.phys a)) =
          page_index-frame (m.phys a) high in
        (
          record m {
            phys = update m.phys a 0;
            mem_map =
                update m.mem_map (map_nr (frame (m.phys a)))
                  (m.mem_map (map_nr (frame (m.phys a))) - 1);
          },
          rw (free_entries, there) (rw (free_held m (m.phys a) high top below used) refl),
          record {
            phys = λ b. ground arith;
            mem_map = λ i. update-counted m (m.phys a) high i;
            high_memory = refl;
          },
        )
  ]
]

-- A page above 1 MB that the entry maps lies below the end of memory.
abbrev pub Low : ℕ → ℕ → Type 0
Low high e = counted e ≡ true → frame e < high

pub Low-same : {high high' e e' : ℕ} → high ≡ high' → e ≡ e' → Low high e → Low high' e'
Low-same p q low = rw (sym p, sym q) low

-- That holds of `n` entries from `a` on.
abbrev pub Below : ℕ → ℕ → Mm → Type 0
Below n a m = (k : ℕ) → k < n → Low m.high_memory (m.phys (a + 4 * k))

-- Each page has at least as many users as entries map it.
abbrev pub Enough : ℕ → ℕ → Mm → Type 0
Enough n a m = (i : ℕ) → sharers n a m.phys i ≤ m.mem_map i

-- Memory after `n` entries have been given back.
pub record Freed (n a : ℕ) (m m' : Mm) : Type 0 where
  pub cleared : (k : ℕ) → k < n → m'.phys (a + 4 * k) ≡ 0
  pub rest : (b : ℕ) → ((k : ℕ) → k < n → b ≢ a + 4 * k) → m'.phys b ≡ m.phys b
  pub users : (i : ℕ) → m'.mem_map i + sharers n a m.phys i ≡ m.mem_map i
  pub high_memory : m'.high_memory ≡ m.high_memory

module _ {a : ℕ} {m m₁ : Mm} (d : Dropped a m m₁) where
  kept_phys : (b : ℕ) → b ≢ a → m₁.phys b ≡ m.phys b
  kept_phys b ne = d.phys b ∙ ground arith

  sharers_kept : (n i : ℕ) → sharers n (a + 4) m₁.phys i ≡ sharers n (a + 4) m.phys i
  sharers_kept n i =
      sharers_same n (a + 4) i m₁.phys m.phys (λ k lt. kept_phys (a + 4 + 4 * k) (omega arith))

  Below-next : (n : ℕ) → Below (suc n) a m → Below n (a + 4) m₁
  Below-next n below k lt =
      Low-same (sym d.high_memory)
        (sym (kept_phys (a + 4 + 4 * k) (omega arith) ∙ ap m.phys (omega arith)))
        (below (suc k) (omega arith))

  Enough-next : (n : ℕ) → Enough (suc n) a m → Enough n (a + 4) m₁
  Enough-next n enough i = ground (arith, sharers_kept n i, d.mem_map i, enough i)

  module _ {n : ℕ} {m' : Mm} (enough : Enough (suc n) a m) (f : Freed n (a + 4) m₁ m') where
    step-cleared : (k : ℕ) → k < suc n → m'.phys (a + 4 * k) ≡ 0
    step-cleared zero lt =
        ap m'.phys {y = a} (omega arith) ∙ f.rest a (λ k h e. omega arith) ∙ d.phys a ∙ ground arith
    step-cleared (suc k) lt =
        ap m'.phys {y = a + 4 + 4 * k} (omega arith) ∙ f.cleared k (omega arith)

    step-rest : (b : ℕ) → ((k : ℕ) → k < suc n → b ≢ a + 4 * k) → m'.phys b ≡ m.phys b
    step-rest b out =
        f.rest b (λ k lt e. out (suc k) (omega arith) (omega arith))
        ∙ kept_phys b (λ e. out 0 (omega arith) (omega arith))

    step-users : (i : ℕ) → m'.mem_map i + sharers (suc n) a m.phys i ≡ m.mem_map i
    step-users i = ground (arith, f.users i, sharers_kept n i, d.mem_map i, enough i)

in_use :
    (n a : ℕ) (m : Mm)
    → Enough (suc n) a m
    → counted (m.phys a) ≡ true
    → m.mem_map (page_index (m.phys a)) ≢ 0
in_use n a m enough c = ground (arith, enough (page_index (m.phys a)))

-- Given a use for every entry, and pages below the end of memory, which is at most 16 MB, the inner loop of
-- free_page_tables returns: the entries are 0, each page has lost one use for each of them that mapped it,
-- and no other word of memory changes.
pub free_entries-Freed :
    (n a : ℕ) (m : Mm)
    → m.high_memory ≤ memory_end
    → Below n a m
    → Enough n a m
    → (m' : Mm) × (free_entries n a m ≡ ok tt m') × Freed n a m m'
unfolding free_entries
free_entries-Freed zero a m top below enough = (
  m,
  refl,
  record {
    cleared = λ k lt. absurd (omega arith);
    rest = λ b out. refl;
    users = λ i. omega arith;
    high_memory = refl;
  },
)
free_entries-Freed (suc n) a m top below enough =
    let low : Low m.high_memory (m.phys a) =
      Low-same refl (ap m.phys (omega arith)) (below 0 (omega arith)) in
    let held : Held m (m.phys a) = λ c. (low c, in_use n a m enough c) in
    let (m₁, one, d) = free_one n a m top held in
    let (m', run, f) =
      free_entries-Freed n (a + 4) m₁ (omega (arith, d.high_memory)) (Below-next d n below)
        (Enough-next d n enough) in
    (
      m',
      one ∙ run,
      record {
        cleared = step-cleared d enough f;
        rest = step-rest d enough f;
        users = step-users d enough f;
        high_memory = f.high_memory ∙ d.high_memory;
      },
    )
