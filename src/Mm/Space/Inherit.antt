-- ===== src/Mm/Space/Inherit.antt =====
-- One directory entry of copy_page_tables (mm/memory.c): the child gets a table of its own, which shares the
-- pages of the parent's.
use neu_os.Prelude.{
  ℕ, Bool, ==_refl, suc, ◌+◌, ◌*◌, ◌%◌, ◌^◌, ◌≤◌, ◌<◌, ◌≡◌, refl, ◌≢◌, ◌⊎◌, inl, inr, ◌∙◌, sym, ap,
  ap₂, true, false, arith, ℕ-cases, lt-cases, ne→==_false, ◌==◌, if◌then◌else◌, update, update_self,
  update_ne,
}
use neu_os.Mm.State.{Mm, ok, low_mem, paging_pages, page_size, map_nr, frame, present, or7}
use neu_os.Mm.Page.{page_address, get_free_page}
use neu_os.Mm.Page.Alloc.{Fresh}
use neu_os.Mm.Space.{copy_entries, copy_dirs}
use neu_os.Mm.Space.Entry.{inherited, protected, sharers, one_if}
use neu_os.Mm.Space.Copy.{Apart, Inside, Copied, copy_entries-Copied, Fits-same, sharers_same}

-- A table that a present directory entry of the parent names: above the page directory, in use, and with pages
-- above 1 MB that mem_map counts.
pub record Source (nr pde : ℕ) (m : Mm) : Type 0 where
  pub above : 4096 ≤ frame pde
  pub word : frame pde < 2 ^ 32
  pub used : low_mem ≤ frame pde → m.mem_map (map_nr (frame pde)) ≢ 0
  pub inside : Inside nr (frame pde) m.phys

-- The word at `b` is in no free page.
abbrev pub Away : Mm → ℕ → Type 0
Away m b =
    (i : ℕ)
    → i < paging_pages
    → m.mem_map i ≡ 0
    → (b < page_address i) ⊎ (page_address i + page_size ≤ b)

apart_pages :
    (x i k : ℕ)
    → frame x < 2 ^ 32
    → k < 1024
    → (low_mem ≤ frame x → map_nr (frame x) ≢ i)
    → (frame x + 4 * k < page_address i) ⊎ (page_address i + page_size ≤ frame x + 4 * k)
apart_pages x i k word small other = elim (lt-cases (frame x) low_mem) [
  | inl low ↦ inl (omega arith)
  | inr high ↦ let ne : map_nr (frame x) ≢ i = other high in omega arith
]

table-Away :
    {nr pde : ℕ} {m : Mm} → Source nr pde m → (k : ℕ) → k < 1024 → Away m (frame pde + 4 * k)
table-Away {pde = pde} {m = m} s k small i below free =
    apart_pages pde i k s.word small (λ high e. s.used high (ap m.mem_map e ∙ free))

-- Memory after the directory entry at `fd`, which is present, has been copied to `td`.
pub record DirCopied (nr fd td : ℕ) (m m' : Mm) : Type 0 where
  pub page : ℕ
  pub below : page < paging_pages
  pub was_free : m.mem_map page ≡ 0
  pub now_used : m'.mem_map page ≢ 0
  pub entry : m'.phys td ≡ or7 (page_address page)
  pub child :
      (k : ℕ)
      → k < nr
      → m'.phys (page_address page + 4 * k) ≡ inherited (m.phys (frame (m.phys fd) + 4 * k)) 0
  pub unused : (k : ℕ) → nr ≤ k → k < 1024 → m'.phys (page_address page + 4 * k) ≡ 0
  pub parent :
      (k : ℕ)
      → k < nr
      → m'.phys (frame (m.phys fd) + 4 * k) ≡ protected (m.phys (frame (m.phys fd) + 4 * k))
  pub rest :
      (b : ℕ)
      → b ≢ td
      → ((k : ℕ) → k < nr → b ≢ frame (m.phys fd) + 4 * k)
      → (b < page_address page) ⊎ (page_address page + page_size ≤ b)
      → m'.phys b ≡ m.phys b
  pub users :
      (j : ℕ)
      → m'.mem_map j ≡ m.mem_map j + one_if (page == j) + sharers nr (frame (m.phys fd)) m.phys j

-- No page comes to 256 uses by those that a table adds and one more.
abbrev pub Room : (ℕ → ℕ) → Mm → Type 0
Room added m = (j : ℕ) → m.mem_map j + added j < 255

at_most_one : (b : Bool) → one_if b ≤ 1
at_most_one true = omega arith
at_most_one false = omega arith

user_total :
    (x s one : ℕ) {after now s' : ℕ}
    → after ≡ (now + s') % 256
    → now ≡ x + one
    → s' ≡ s
    → x + s < 255
    → one ≤ 1
    → after ≡ x + one + s
user_total x s one p q r lt le = omega arith

used_now : (i x s : ℕ) {after : ℕ} → after ≡ x + one_if (i == i) + s → after ≢ 0
used_now i x s p z = ground (arith, ==_refl i)

module _ (nr fd td : ℕ) (m m₁ : Mm) (i : ℕ) (few : nr ≤ 1024) (low : td < 4096)
    (s : Source nr (m.phys fd) m) (f : Fresh m i m₁)
    (room : Room (sharers nr (frame (m.phys fd)) m.phys) m) where
  abbrev entered : Mm
  entered = record m₁ { phys = update m₁.phys td (or7 (page_address i)) }

  kept_table :
      (k : ℕ)
      → k < nr
      → entered.phys (frame (m.phys fd) + 4 * k) ≡ m.phys (frame (m.phys fd) + 4 * k)
  kept_table k lt =
      update_ne m₁.phys td (frame (m.phys fd) + 4 * k) (or7 (page_address i))
        (λ e. omega (arith, s.above))
      ∙ f.kept (frame (m.phys fd) + 4 * k)
          (table-Away s k (omega arith) i f.place.below f.place.was_free)

  same_sharers :
      (j : ℕ)
      → sharers nr (frame (m.phys fd)) entered.phys j ≡ sharers nr (frame (m.phys fd)) m.phys j
  same_sharers j = sharers_same nr (frame (m.phys fd)) j entered.phys m.phys kept_table

  taken-map : (j : ℕ) → entered.mem_map j ≡ (if j == i then 1 else m.mem_map j)
  taken-map j = ap (λ (map : ℕ → ℕ). map j) f.mem_map ∙ ground arith

  entered_count : (j : ℕ) → entered.mem_map j ≡ m.mem_map j + one_if (i == j)
  entered_count j = taken-map j ∙ elim (ℕ-cases j i) [
    | inl e ↦ ground (arith, ap m.mem_map e, f.place.was_free, ==_refl i)
    | inr ne ↦ ground arith
  ]

  entered-bytes : (j : ℕ) → entered.mem_map j < 256
  entered-bytes j = ground (arith, taken-map j, room j)

  entered-Inside : Inside nr (frame (m.phys fd)) entered.phys
  entered-Inside k lt = Fits-same (sym (kept_table k lt)) (s.inside k lt)

  whole-Apart : Apart 1024 (frame (m.phys fd)) (page_address i)
  whole-Apart = elim (lt-cases (frame (m.phys fd)) low_mem) [
    | inl below ↦ omega arith
    | inr high ↦
        let ne : map_nr (frame (m.phys fd)) ≢ i =
          λ e. s.used high (ap m.mem_map e ∙ f.place.was_free) in
        omega arith
  ]

  entered-Apart : Apart nr (frame (m.phys fd)) (page_address i)
  entered-Apart =
      let o : Apart 1024 (frame (m.phys fd)) (page_address i) = whole-Apart in omega arith

  blank_word : (k : ℕ) → k < 1024 → entered.phys (page_address i + 4 * k) ≡ 0
  blank_word k lt =
      update_ne m₁.phys td (page_address i + 4 * k) (or7 (page_address i)) (λ e. omega arith)
      ∙ f.zeroed k lt

  blank : (k : ℕ) → k < nr → entered.phys (page_address i + 4 * k) ≡ 0
  blank k lt = blank_word k (omega arith)

  pub Copied-entered :
      (m' : Mm) × (copy_entries nr (frame (m.phys fd)) (page_address i) entered ≡ ok tt m')
      × Copied nr (frame (m.phys fd)) (page_address i) entered m'
  Copied-entered =
      copy_entries-Copied nr (frame (m.phys fd)) (page_address i) entered entered-bytes
        entered-Apart entered-Inside

  module _ {m' : Mm} (c : Copied nr (frame (m.phys fd)) (page_address i) entered m') where
    copied-users :
        (j : ℕ)
        → m'.mem_map j ≡ m.mem_map j + one_if (i == j) + sharers nr (frame (m.phys fd)) m.phys j
    copied-users j =
        user_total (m.mem_map j) (sharers nr (frame (m.phys fd)) m.phys j) (one_if (i == j))
          (c.users j) (entered_count j) (same_sharers j) (room j) (at_most_one (i == j))

    pub entered-DirCopied : DirCopied nr fd td m m'
    entered-DirCopied = record {
      page = i;
      below = f.place.below;
      was_free = f.place.was_free;
      now_used =
          used_now i (m.mem_map i) (sharers nr (frame (m.phys fd)) m.phys i) (copied-users i);
      entry =
          c.rest td (λ k lt e. omega (arith, s.above)) (λ k lt e. omega arith)
          ∙ update_self m₁.phys td (or7 (page_address i));
      child = λ k lt. c.child k lt ∙ ap₂ inherited (kept_table k lt) (blank k lt);
      parent = λ k lt. c.parent k lt ∙ ap protected (kept_table k lt);
      unused = λ k from below.
          c.rest (page_address i + 4 * k)
            (λ j lt e.
              let o : Apart 1024 (frame (m.phys fd)) (page_address i) = whole-Apart in omega arith)
            (λ j lt e. omega arith)
          ∙ blank_word k below;
      rest = λ b ne out off.
          c.rest b out (λ k lt e. omega arith)
          ∙ update_ne m₁.phys td b (or7 (page_address i)) ne
          ∙ f.kept b off;
      users = copied-users;
    }

  -- One round, when there is a page for the child's table.
  pub copy_dir_got :
      (n : ℕ) {m' : Mm}
      → present (m.phys td) ≡ false
      → present (m.phys fd) ≡ true
      → get_free_page m ≡ ok (page_address i) m₁
      → copy_entries nr (frame (m.phys fd)) (page_address i) entered ≡ ok tt m'
      → copy_dirs nr (suc n) fd td m ≡ copy_dirs nr n (fd + 4) (td + 4) m'
  unfolding copy_dirs
  copy_dir_got n absent there taken run =
      rw (copy_dirs, absent)
        (rw there (rw taken (rw (ne→==_false (page_address i) 0 (omega arith)) (rw run refl))))
