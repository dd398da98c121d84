-- ===== src/Mm/Space/Owned.antt =====
-- Address spaces whose directory entries have tables of their own, and what one round of free_page_tables
-- (mm/memory.c) leaves of the rest.
use mathlib.Core.Path.{subst}
use neu_os.Prelude.{
  ℕ, zero, suc, ◌+◌, ◌*◌, ◌≤◌, ◌<◌, ◌≡◌, refl, ◌≢◌, inl, inr, ◌∙◌, sym, ap, ap₂, true, false, arith,
  Bool-cases, ◌==◌, if◌then◌else◌,
}
use neu_os.Mm.State.{Mm, low_mem, map_nr, frame, present}
use neu_os.Mm.Space.Entry.{one_if}
use neu_os.Mm.Space.Copy.{sharers_same}
use neu_os.Mm.Space.Free.{Low-same}
use neu_os.Mm.Space.Dirs.{table_uses, dir_uses, Outside, HasTable, DirFreed}

-- The uses that `n` directory entries from `d` on make of page `i`.
abbrev pub uses : ℕ → ℕ → (ℕ → ℕ) → ℕ → ℕ
uses zero d phys i = 0
uses (suc n) d phys i = dir_uses (phys d) phys i + uses n (d + 4) phys i

-- Each of `n` directory entries from `d` on that is present has a table of its own.
pub record Owned (n d : ℕ) (m : Mm) : Type 0 where
  pub table :
      (j : ℕ) → j < n → present (m.phys (d + 4 * j)) ≡ true → HasTable (m.phys (d + 4 * j)) m
  pub distinct :
      (j k : ℕ)
      → j < k
      → k < n
      → present (m.phys (d + 4 * j)) ≡ true
      → present (m.phys (d + 4 * k)) ≡ true
      → frame (m.phys (d + 4 * j)) ≢ frame (m.phys (d + 4 * k))

-- Memory after `n` directory entries from `d` on have been freed.
pub record SpaceFreed (n d : ℕ) (m m' : Mm) : Type 0 where
  pub absent : (j : ℕ) → j < n → present (m'.phys (d + 4 * j)) ≡ false
  pub rest :
      (b : ℕ)
      → ((j : ℕ) → j < n → b ≢ d + 4 * j)
      → ((j : ℕ) → j < n → Outside (m.phys (d + 4 * j)) b)
      → m'.phys b ≡ m.phys b
  pub users : (i : ℕ) → m'.mem_map i + uses n d m.phys i ≡ m.mem_map i
  pub high_memory : m'.high_memory ≡ m.high_memory

tables_apart :
    (x y k l : ℕ) → k < 1024 → l < 1024 → frame x ≢ frame y → frame x + 4 * k ≢ frame y + 4 * l
tables_apart x y k l hk hl ne e = ne (omega arith)

dir_uses-same :
    (i : ℕ) {e e' : ℕ} (p q : ℕ → ℕ)
    → e ≡ e'
    → (present e ≡ true → (k : ℕ) → k < 1024 → p (frame e + 4 * k) ≡ q (frame e + 4 * k))
    → dir_uses e p i ≡ dir_uses e' q i
unfolding table_uses
dir_uses-same i {e} {e'} p q same words = elim (Bool-cases (present e)) [
  | inl there ↦
      ap (λ u. if present e then u + one_if (map_nr (frame e) == i) else 0)
        (sharers_same 1024 (frame e) i p q (words there))
      ∙ ap (λ x. dir_uses x q i) same
  | inr not_there ↦ rw not_there (rw (sym (ap present same) ∙ not_there) refl)
]

-- The entries are at `d` and from `d + 4` on.
pub at_first : (P : ℕ → Type 0) (d : ℕ) → P (d + 4 * 0) → P d
at_first P d h = subst P (omega arith) h

at_next : (P : ℕ → Type 0) (d j : ℕ) → P (d + 4 * suc j) → P (d + 4 + 4 * j)
at_next P d j h = subst P (omega arith) h

at_next_back : (P : ℕ → Type 0) (d j : ℕ) → P (d + 4 + 4 * j) → P (d + 4 * suc j)
at_next_back P d j h = subst P (omega arith) h

at_first_back : (P : ℕ → Type 0) (d : ℕ) → P d → P (d + 4 * 0)
at_first_back P d h = subst P (omega arith) h

-- The two memories have the same words in the table that the entry at `a` names.
abbrev SameTable : (ℕ → ℕ) → (ℕ → ℕ) → ℕ → Type 0
SameTable p q a =
    present (p a) ≡ true → (k : ℕ) → k < 1024 → p (frame (p a) + 4 * k) ≡ q (frame (p a) + 4 * k)

uses-same :
    (n d i : ℕ) (p q : ℕ → ℕ)
    → ((j : ℕ) → j < n → p (d + 4 * j) ≡ q (d + 4 * j))
    → ((j : ℕ) → j < n → SameTable p q (d + 4 * j))
    → uses n d p i ≡ uses n d q i
uses-same zero d i p q same words = refl
uses-same (suc n) d i p q same words =
    ap₂ ◌+◌
      (dir_uses-same i p q (at_first (λ a. p a ≡ q a) d (same 0 (omega arith)))
        (at_first (SameTable p q) d (words 0 (omega arith))))
      (uses-same n (d + 4) i p q (λ j lt. at_next (λ a. p a ≡ q a) d j (same (suc j) (omega arith)))
        (λ j lt. at_next (SameTable p q) d j (words (suc j) (omega arith))))

sum_back : (a x : ℕ) {b b' c y : ℕ} → b' ≡ b → x + b' ≡ y → y + a ≡ c → x + (a + b) ≡ c
sum_back a x p q r = omega (arith, p, q, r)

module _ (n d : ℕ) (m m₁ : Mm) (low : d + 4 * suc n ≤ low_mem) (o : Owned (suc n) d m)
    (f : DirFreed d m m₁) where
  first : present (m.phys d) ≡ true → HasTable (m.phys d) m
  first =
      at_first (λ a. present (m.phys a) ≡ true → HasTable (m.phys a) m) d (o.table 0 (omega arith))

  -- The entry `j` of the rest, and its table.
  later :
      (j : ℕ)
      → j < n
      → present (m.phys (d + 4 + 4 * j)) ≡ true
      → HasTable (m.phys (d + 4 + 4 * j)) m
  later j lt =
      at_next (λ a. present (m.phys a) ≡ true → HasTable (m.phys a) m) d j
        (o.table (suc j) (omega arith))

  first_apart :
      (j : ℕ)
      → j < n
      → present (m.phys d) ≡ true
      → present (m.phys (d + 4 + 4 * j)) ≡ true
      → frame (m.phys d) ≢ frame (m.phys (d + 4 + 4 * j))
  first_apart j lt =
      at_first
        (λ b.
          present (m.phys b) ≡ true
          → present (m.phys (d + 4 + 4 * j)) ≡ true
          → frame (m.phys b) ≢ frame (m.phys (d + 4 + 4 * j)))
        d
        (at_next
          (λ a.
            present (m.phys (d + 4 * 0)) ≡ true
            → present (m.phys a) ≡ true
            → frame (m.phys (d + 4 * 0)) ≢ frame (m.phys a))
          d j (o.distinct 0 (suc j) (omega arith) (omega arith)))

  later_apart :
      (j k : ℕ)
      → j < k
      → k < n
      → present (m.phys (d + 4 + 4 * j)) ≡ true
      → present (m.phys (d + 4 + 4 * k)) ≡ true
      → frame (m.phys (d + 4 + 4 * j)) ≢ frame (m.phys (d + 4 + 4 * k))
  later_apart j k less lt =
      at_next
        (λ b.
          present (m.phys b) ≡ true
          → present (m.phys (d + 4 + 4 * k)) ≡ true
          → frame (m.phys b) ≢ frame (m.phys (d + 4 + 4 * k)))
        d j
        (at_next
          (λ a.
            present (m.phys (d + 4 * suc j)) ≡ true
            → present (m.phys a) ≡ true
            → frame (m.phys (d + 4 * suc j)) ≢ frame (m.phys a))
          d k (o.distinct (suc j) (suc k) (omega arith) (omega arith)))

  dir_same : (j : ℕ) → j < n → m₁.phys (d + 4 + 4 * j) ≡ m.phys (d + 4 + 4 * j)
  dir_same j lt =
      f.rest (d + 4 + 4 * j) (λ e. omega arith)
        (λ there k small e. omega (arith, (first there).above))

  table_same :
      (j : ℕ)
      → j < n
      → present (m.phys (d + 4 + 4 * j)) ≡ true
      → (k : ℕ) → k < 1024
      → m₁.phys (frame (m.phys (d + 4 + 4 * j)) + 4 * k)
        ≡ m.phys (frame (m.phys (d + 4 + 4 * j)) + 4 * k)
  table_same j lt there k small =
      f.rest (frame (m.phys (d + 4 + 4 * j)) + 4 * k) (λ e. omega (arith, (later j lt there).above))
        (λ there' l small' e.
          tables_apart (m.phys d) (m.phys (d + 4 + 4 * j)) l k small' small
            (first_apart j lt there' there) (sym e))

  HasTable-next :
      (j : ℕ)
      → j < n
      → present (m.phys (d + 4 + 4 * j)) ≡ true
      → HasTable (m.phys (d + 4 + 4 * j)) m₁
  HasTable-next j lt there =
      let t = later j lt there in
      record {
        above = t.above;
        inside = omega (arith, t.inside, f.high_memory);
        entries = λ k small.
            Low-same (sym f.high_memory) (sym (table_same j lt there k small)) (t.entries k small);
      }

  -- The rest is as it was.
  pub Owned-next : Owned n (d + 4) m₁
  Owned-next = record {
    table = λ j lt.
        subst (λ e. present e ≡ true → HasTable e m₁) (sym (dir_same j lt)) (HasTable-next j lt);
    distinct = λ j k less lt there there'.
        subst (λ e. frame (m₁.phys (d + 4 + 4 * j)) ≢ frame e) (sym (dir_same k lt))
          (subst (λ e. frame e ≢ frame (m.phys (d + 4 + 4 * k))) (sym (dir_same j (omega arith)))
            (later_apart j k less lt (ap present (sym (dir_same j (omega arith))) ∙ there)
              (ap present (sym (dir_same k lt)) ∙ there')));
  }

  pub uses-next : (i : ℕ) → uses n (d + 4) m₁.phys i ≡ uses n (d + 4) m.phys i
  uses-next i = sym (
      uses-same n (d + 4) i m.phys m₁.phys (λ j lt. sym (dir_same j lt))
        (λ j lt there k small. sym (table_same j lt there k small)))

  module _ {m' : Mm} (s : SpaceFreed n (d + 4) m₁ m') where
    pub step-absent : (j : ℕ) → j < suc n → present (m'.phys (d + 4 * j)) ≡ false
    step-absent zero lt =
        at_first_back (λ a. present (m'.phys a) ≡ false) d
          (ap present (
              s.rest d (λ j h e. omega arith)
                (λ j h there k small e. omega (arith, (Owned-next.table j h there).above)))
            ∙ f.absent)
    step-absent (suc j) lt =
        at_next_back (λ a. present (m'.phys a) ≡ false) d j (s.absent j (omega arith))

    pub step-rest :
        (b : ℕ)
        → ((j : ℕ) → j < suc n → b ≢ d + 4 * j)
        → ((j : ℕ) → j < suc n → Outside (m.phys (d + 4 * j)) b)
        → m'.phys b ≡ m.phys b
    step-rest b out tables =
        s.rest b (λ j lt. at_next (λ a. b ≢ a) d j (out (suc j) (omega arith)))
          (λ j lt.
            subst (λ e. Outside e b) (sym (dir_same j lt))
              (at_next (λ a. Outside (m.phys a) b) d j (tables (suc j) (omega arith))))
        ∙ f.rest b (at_first (λ a. b ≢ a) d (out 0 (omega arith)))
            (at_first (λ a. Outside (m.phys a) b) d (tables 0 (omega arith)))

    pub step-users : (i : ℕ) → m'.mem_map i + uses (suc n) d m.phys i ≡ m.mem_map i
    step-users i =
        sum_back (dir_uses (m.phys d) m.phys i) (m'.mem_map i) (uses-next i) (s.users i) (f.users i)
