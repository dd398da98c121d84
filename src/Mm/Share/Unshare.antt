-- ===== src/Mm/Share/Unshare.antt =====
-- un_wp_page of mm/memory.c on a page with one user and on a shared page.
use neu_os.Prelude.{
  ℕ, ◌+◌, ◌-◌, ◌*◌, ◌%◌, ◌≤◌, ◌<◌, ◌≡◌, refl, ◌≢◌, ◌∙◌, sym, ap, arith, ◌==◌, update, update_self,
  update_ne, ne→==_false, ◌⊎◌, inl, inr,
}
use neu_os.Mm.State.{Mm, Run, ok, panic, and_then, low_mem, paging_pages, map_nr, frame, or2, or7}
use neu_os.Mm.Page.{page_address}
use neu_os.Mm.Page.Alloc.{Got, exhausted, got, get_free_page-Got}
use neu_os.Mm.Page.Free.{memory_end}
use neu_os.Mm.Share.{sole_user, drop_count, replace_page, un_wp_page}

-- The page that the entry maps is one of the pages that mem_map counts.
abbrev pub IsCounted : Mm → ℕ → Type 0
IsCounted m entry = (low_mem ≤ frame (m.phys entry)) × (frame (m.phys entry) < memory_end)

-- The number of users of that page.
abbrev pub users : Mm → ℕ → ℕ
users m entry = m.mem_map (map_nr (frame (m.phys entry)))

sole_user-counted :
    (m : Mm) (entry : ℕ)
    → IsCounted m entry
    → sole_user (frame (m.phys entry)) m ≡ ok (users m entry == 1) m
unfolding sole_user
sole_user-counted m entry c = ground arith

-- A page above 1 MB with one user is made writable in place, and nothing else changes.
pub un_wp_page_sole :
    (m : Mm) (entry : ℕ)
    → IsCounted m entry
    → users m entry ≡ 1
    → un_wp_page entry m ≡ ok tt (record m { phys = update m.phys entry (or2 (m.phys entry)) })
unfolding un_wp_page
un_wp_page_sole m entry c one = rw (sole_user-counted m entry c) (rw one refl)

-- What un_wp_page does with a shared page: the entry maps page `i`, which was free, as writable; the
-- old page loses a user; and the new page holds only 0, whatever the old page holds.
pub record Replaced (m : Mm) (entry i : ℕ) (m' : Mm) : Type 0 where
  pub was_free : m.mem_map i ≡ 0
  pub writable : m'.phys entry ≡ page_address i + 7
  pub fewer : m'.mem_map (map_nr (frame (m.phys entry))) ≡ users m entry - 1
  pub once : m'.mem_map i ≡ 1
  pub blank : (k : ℕ) → k < 1024 → m'.phys (page_address i + 4 * k) ≡ 0

pub data Unshared (m : Mm) (entry : ℕ) : Run (Unit {0}) → Type 0 where
  out_of_memory : ((i : ℕ) → i < paging_pages → m.mem_map i ≢ 0) → Unshared m entry (panic m)
  replaced : {i : ℕ} {m' : Mm} → Replaced m entry i m' → Unshared m entry (ok tt m')

replace_page-run :
    (m : Mm) (entry old new : ℕ)
    → low_mem ≤ old
    → old < memory_end
    → new ≢ 0
    → replace_page entry old new m
      ≡ ok tt (record m {
        mem_map = update m.mem_map (map_nr old) ((m.mem_map (map_nr old) + 255) % 256);
        phys = update m.phys entry (or7 new);
      })
unfolding replace_page drop_count
replace_page-run m entry old new lo hi nz = ground arith

module _ (m : Mm) (entry : ℕ) (c : IsCounted m entry) (shared : 1 < users m entry)
    (byte : users m entry < 256)
    (outside : (entry < low_mem) ⊎ (m.mem_map (map_nr entry) ≢ 0)) where
  -- The entry does not lie in a free page.
  apart : {i k : ℕ} → i < paging_pages → m.mem_map i ≡ 0 → k < 1024 → page_address i + 4 * k ≢ entry
  apart {i} {k} lt free small e = elim outside [
    | inl low ↦ omega arith
    | inr used_ ↦ used_ (ap m.mem_map {y = i} (omega arith) ∙ free)
  ]

  replace-Unshared :
      {r : Run ℕ}
      → Got m r
      → Unshared m entry (and_then r (replace_page entry (frame (m.phys entry))))
  unfolding replace_page
  replace-Unshared (exhausted full) = out_of_memory full
  replace-Unshared (got {i} {m'} f) =
      let old : ℕ = map_nr (frame (m.phys entry)) in
      let other : old ≢ i = λ e. omega (arith, ap m.mem_map e, f.place.was_free) in
      let same : m'.mem_map old ≡ users m entry =
        ap (λ t. t old) f.mem_map ∙ update_ne m.mem_map i old 1 other in
      rw (replace_page-run m' entry (frame (m.phys entry)) (page_address i) c.0 c.1 (omega arith)) (
        replaced (record {
          was_free = f.place.was_free;
          writable = update_self m'.phys entry (or7 (page_address i)) ∙ omega arith;
          fewer = update_self m'.mem_map old ((m'.mem_map old + 255) % 256) ∙ omega (arith, same);
          once =
              update_ne m'.mem_map old i ((m'.mem_map old + 255) % 256) (λ e. other (sym e))
              ∙ ap (λ t. t i) f.mem_map
              ∙ update_self m.mem_map i 1;
          blank = λ k lt.
              update_ne m'.phys entry (page_address i + 4 * k) (or7 (page_address i))
                (apart f.place.below f.place.was_free lt)
              ∙ f.zeroed k lt;
        }))

  -- A page from 1 MB up to 16 MB that has from 2 to 255 users, mapped by an entry which lies below 1 MB or in a page
  -- that is not free: un_wp_page panics if no page is free. Otherwise the entry maps a page that was free,
  -- as writable, the old page loses one user, and the new page is all 0: the content of the old page is
  -- not copied.
  pub un_wp_page_shared : Unshared m entry (un_wp_page entry m)
  unfolding un_wp_page
  un_wp_page_shared =
      rw (sole_user-counted m entry c)
        (rw (ne→==_false (users m entry) 1 (omega arith)) (replace-Unshared (get_free_page-Got m)))
