-- ===== src/Mm/Space/Copy.antt =====
-- The inner loop of copy_page_tables (mm/memory.c), by which a child shares its parent's pages.
use neu_os.Prelude.{
  ℕ, zero, suc, ◌+◌, ◌*◌, ◌%◌, ◌≤◌, ◌<◌, ◌≡◌, refl, ◌≢◌, ◌⊎◌, ◌∙◌, sym, ap, ap₂, true, ◌&&◌, arith,
  ◌==◌,
}
use neu_os.Mm.State.{Mm, ok, paging_pages}
use neu_os.Mm.Space.Entry.{
  counted, page_index, inherited, protected, one_if, sharers, Shared, share_one,
}
use neu_os.Mm.Space.{copy_entries}

-- The stretches of `n` entries from `from` and from `to` on do not meet.
abbrev pub Apart : ℕ → ℕ → ℕ → Type 0
Apart n from to = (from + 4 * n ≤ to) ⊎ (to + 4 * n ≤ from)

abbrev pub Fits : ℕ → Type 0
Fits e = counted e ≡ true → page_index e < paging_pages

pub Fits-same : {e e' : ℕ} → e ≡ e' → Fits e → Fits e'
Fits-same p f = rw (sym p) f

-- The pages above 1 MB that the entries map are pages that mem_map counts.
abbrev pub Inside : ℕ → ℕ → (ℕ → ℕ) → Type 0
Inside n from phys = (k : ℕ) → k < n → Fits (phys (from + 4 * k))

pub sharers_same :
    (n from i : ℕ) (p q : ℕ → ℕ)
    → ((k : ℕ) → k < n → p (from + 4 * k) ≡ q (from + 4 * k))
    → sharers n from p i ≡ sharers n from q i
sharers_same zero from i p q same = refl
sharers_same (suc n) from i p q same =
    let here : p from ≡ q from = ap p (omega arith) ∙ same 0 (omega arith) ∙ ap q (omega arith) in
    ap (λ e. one_if (counted e && (page_index e == i)) + sharers n (from + 4) p i) here
    ∙ ap (λ s. one_if (counted (q from) && (page_index (q from) == i)) + s)
        (sharers_same n (from + 4) i p q
          (λ k lt. ap p (omega arith) ∙ same (k + 1) (omega arith) ∙ ap q (omega arith)))

-- Memory after `n` entries have been shared.
pub record Copied (n from to : ℕ) (m m' : Mm) : Type 0 where
  pub child :
      (k : ℕ)
      → k < n
      → m'.phys (to + 4 * k) ≡ inherited (m.phys (from + 4 * k)) (m.phys (to + 4 * k))
  pub parent : (k : ℕ) → k < n → m'.phys (from + 4 * k) ≡ protected (m.phys (from + 4 * k))
  pub rest :
      (a : ℕ)
      → ((k : ℕ) → k < n → a ≢ from + 4 * k)
      → ((k : ℕ) → k < n → a ≢ to + 4 * k)
      → m'.phys a ≡ m.phys a
  pub users : (i : ℕ) → m'.mem_map i ≡ (m.mem_map i + sharers n from m.phys i) % 256
  pub high_memory : m'.high_memory ≡ m.high_memory

same_phys :
    {from to : ℕ} {m m₁ : Mm}
    → Shared from to m m₁
    → (a : ℕ) → a ≢ from
    → a ≢ to
    → m₁.phys a ≡ m.phys a
same_phys s a nf nt = s.phys a ∙ ground arith

module _ {n from to : ℕ} {m m₁ m' : Mm} (apart : Apart (suc n) from to) (s : Shared from to m m₁)
    (c : Copied n (from + 4) (to + 4) m₁ m') where
  phys-to : m₁.phys to ≡ inherited (m.phys from) (m.phys to)
  phys-to = s.phys to ∙ ground arith

  phys-from : m₁.phys from ≡ protected (m.phys from)
  phys-from = s.phys from ∙ ground arith

  step-child :
      (k : ℕ)
      → k < suc n
      → m'.phys (to + 4 * k) ≡ inherited (m.phys (from + 4 * k)) (m.phys (to + 4 * k))
  step-child zero lt =
      ap m'.phys {y = to} (omega arith)
      ∙ c.rest to (λ k h e. omega arith) (λ k h e. omega arith)
      ∙ phys-to
      ∙ ap₂ inherited (ap m.phys (omega arith)) (ap m.phys (omega arith))
  step-child (suc k) lt =
      ap m'.phys {y = to + 4 + 4 * k} (omega arith)
      ∙ c.child k (omega arith)
      ∙ ap₂ inherited
          (same_phys s (from + 4 + 4 * k) (omega arith) (omega arith) ∙ ap m.phys (omega arith))
          (same_phys s (to + 4 + 4 * k) (omega arith) (omega arith) ∙ ap m.phys (omega arith))

  step-parent : (k : ℕ) → k < suc n → m'.phys (from + 4 * k) ≡ protected (m.phys (from + 4 * k))
  step-parent zero lt =
      ap m'.phys {y = from} (omega arith)
      ∙ c.rest from (λ k h e. omega arith) (λ k h e. omega arith)
      ∙ phys-from
      ∙ ap protected (ap m.phys (omega arith))
  step-parent (suc k) lt =
      ap m'.phys {y = from + 4 + 4 * k} (omega arith)
      ∙ c.parent k (omega arith)
      ∙ ap protected
          (same_phys s (from + 4 + 4 * k) (omega arith) (omega arith) ∙ ap m.phys (omega arith))

  step-rest :
      (a : ℕ)
      → ((k : ℕ) → k < suc n → a ≢ from + 4 * k)
      → ((k : ℕ) → k < suc n → a ≢ to + 4 * k)
      → m'.phys a ≡ m.phys a
  step-rest a nf nt =
      c.rest a (λ k lt e. nf (suc k) (omega arith) (omega arith))
        (λ k lt e. nt (suc k) (omega arith) (omega arith))
      ∙ same_phys s a (λ e. nf 0 (omega arith) (omega arith))
          (λ e. nt 0 (omega arith) (omega arith))

  step-users : (i : ℕ) → m'.mem_map i ≡ (m.mem_map i + sharers (suc n) from m.phys i) % 256
  step-users i =
      c.users i
      ∙ ap (λ k. (m₁.mem_map i + k) % 256)
          (sharers_same n (from + 4) i m₁.phys m.phys
            (λ k lt. same_phys s (from + 4 + 4 * k) (omega arith) (omega arith)))
      ∙ ground (arith, s.mem_map i)

-- Given two stretches of `n` entries that do not meet, the pages above 1 MB that the first one maps being
-- pages that mem_map counts, the inner loop of copy_page_tables returns: the child has each present entry without its
-- writable bit, the parent too where the page is above 1 MB, each page has as many users more as entries
-- map it (modulo 256, the size of a byte of mem_map), and no other word of memory changes.
pub copy_entries-Copied :
    (n from to : ℕ) (m : Mm)
    → ((i : ℕ) → m.mem_map i < 256)
    → Apart n from to
    → Inside n from m.phys
    → (m' : Mm) × (copy_entries n from to m ≡ ok tt m') × Copied n from to m m'
unfolding copy_entries
copy_entries-Copied zero from to m bytes apart inside = (
  m,
  refl,
  record {
    child = λ k lt. absurd (omega arith);
    parent = λ k lt. absurd (omega arith);
    rest = λ a nf nt. refl;
    users = λ i. let byte : m.mem_map i < 256 = bytes i in omega arith;
    high_memory = refl;
  },
)
copy_entries-Copied (suc n) from to m bytes apart inside =
    let (m₁, one, s) =
      share_one n from to m (omega arith)
        (Fits-same (ap m.phys (omega arith)) (inside 0 (omega arith))) in
    let (m', run, c) =
      copy_entries-Copied n (from + 4) (to + 4) m₁ (λ i. ground (arith, bytes i, s.mem_map i))
        (omega arith)
        (λ k lt.
          Fits-same
            (sym (
              same_phys s (from + 4 + 4 * k) (omega arith) (omega arith) ∙ ap m.phys (omega arith)))
            (inside (k + 1) (omega arith))) in
    (
      m',
      one ∙ run,
      record {
        child = step-child apart s c;
        parent = step-parent apart s c;
        rest = step-rest apart s c;
        users = step-users apart s c;
        high_memory = c.high_memory ∙ s.high_memory;
      },
    )
