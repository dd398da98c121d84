-- ===== src/Mm/Page/Alloc.antt =====
-- get_free_page of mm/memory.c: which page it takes, and what it does to memory.
use mathlib.Core.Path.{subst}
use neu_os.Prelude.{
  ℕ, zero, suc, ◌+◌, ◌-◌, ◌*◌, ◌≤◌, ◌<◌, ◌≡◌, refl, ◌≢◌, ◌⊎◌, inl, inr, ◌∙◌, sym, ap, none, some,
  arith, ◌==◌, Bool-cases, Option-cases, ℕ-cases, update, update_self, update_ne, eq_of_==,
}
use neu_os.Mm.State.{Mm, Run, ok, paging_pages, page_size}
use neu_os.Mm.Page.{scan, clear_down, page_address, take_page, get_free_page}

pub record LastFree (n : ℕ) (map : ℕ → ℕ) (i : ℕ) : Type 0 where
  pub below : i < n
  pub was_free : map i ≡ 0
  pub last : (j : ℕ) → i < j → j < n → map j ≢ 0

pub scan-LastFree : (n : ℕ) (map : ℕ → ℕ) {i : ℕ} → scan n map ≡ some i → LastFree n map i
unfolding scan
scan-LastFree zero map e = cc
scan-LastFree (suc n) map {i} e = elim (Bool-cases (map n == 0)) [
  | inl free ↦
      let same : n ≡ i = ground arith in
      record {
        below = omega arith;
        was_free = ap map (sym same) ∙ eq_of_== (map n) 0 free;
        last = λ j lo hi. absurd (omega arith);
      }
  | inr taken ↦
      let rest = scan-LastFree n map (rw taken at e) in
      record {
        below = omega (arith, rest.below);
        was_free = rest.was_free;
        last = λ j lo hi used_. elim (ℕ-cases j n) [
          | inl e' ↦ ground (arith, ap map e')
          | inr ne ↦ rest.last j lo (omega arith) used_
        ];
      }
]

pub scan-none : (n : ℕ) (map : ℕ → ℕ) → scan n map ≡ none → (j : ℕ) → j < n → map j ≢ 0
unfolding scan
scan-none zero map e j lt used_ = absurd (omega arith)
scan-none (suc n) map e j lt used_ = elim (ℕ-cases j n) [
  | inl e' ↦ ground (arith, ap map e')
  | inr ne ↦ scan-none n map (ground arith) j (omega arith) used_
]

pub clear_down-kept :
    (n edi : ℕ) (phys : ℕ → ℕ) (a : ℕ)
    → ((k : ℕ) → k < n → a ≢ edi - 4 * k)
    → clear_down n edi phys a ≡ phys a
unfolding clear_down
clear_down-kept zero edi phys a out = refl
clear_down-kept (suc n) edi phys a out =
    clear_down-kept n (edi - 4) (update phys edi 0) a
      (λ k lt e. out (suc k) (omega arith) (omega arith))
    ∙ update_ne phys edi a 0 (λ e. out 0 (omega arith) (omega arith))

pub clear_down-cleared :
    (n edi : ℕ) (phys : ℕ → ℕ) (k : ℕ)
    → k < n
    → 4 * n ≤ edi + 4
    → clear_down n edi phys (edi - 4 * k) ≡ 0
unfolding clear_down
clear_down-cleared zero edi phys k lt room = absurd (omega arith)
clear_down-cleared (suc n) edi phys zero lt room =
    ap (clear_down n (edi - 4) (update phys edi 0)) (omega arith)
    ∙ clear_down-kept n (edi - 4) (update phys edi 0) edi (λ k lt' e. omega arith)
    ∙ update_self phys edi 0
clear_down-cleared (suc n) edi phys (suc k) lt room =
    ap (clear_down n (edi - 4) (update phys edi 0)) (omega arith)
    ∙ clear_down-cleared n (edi - 4) (update phys edi 0) k (omega arith) (omega arith)

-- The state after page `i`, the last free one, is taken.
pub record Fresh (m : Mm) (i : ℕ) (m' : Mm) : Type 0 where
  pub place : LastFree paging_pages m.mem_map i
  pub mem_map : m'.mem_map ≡ update m.mem_map i 1
  pub zeroed : (k : ℕ) → k < 1024 → m'.phys (page_address i + 4 * k) ≡ 0
  pub kept :
      (a : ℕ) → (a < page_address i) ⊎ (page_address i + page_size ≤ a) → m'.phys a ≡ m.phys a
  pub high_memory : m'.high_memory ≡ m.high_memory
  pub log : m'.log ≡ m.log

take_page-Fresh : (m : Mm) (i : ℕ) → LastFree paging_pages m.mem_map i → Fresh m i (take_page i m)
unfolding take_page
take_page-Fresh m i place = record {
  place = place;
  mem_map = refl;
  zeroed = λ k lt.
      ap (clear_down 1024 (page_address i + 4092) m.phys)
        {y = page_address i + 4092 - 4 * (1023 - k)} (omega arith)
      ∙ clear_down-cleared 1024 (page_address i + 4092) m.phys (1023 - k) (omega arith)
          (omega arith);
  kept = λ a out. clear_down-kept 1024 (page_address i + 4092) m.phys a (λ k lt e. omega arith);
  high_memory = refl;
  log = refl;
}

-- The two results of get_free_page.
pub data Got (m : Mm) : Run ℕ → Type 0 where
  exhausted : ((j : ℕ) → j < paging_pages → m.mem_map j ≢ 0) → Got m (ok 0 m)
  got : {i : ℕ} {m' : Mm} → Fresh m i m' → Got m (ok (page_address i) m')

-- get_free_page returns 0 and changes nothing when no page is free; otherwise it returns the address
-- of the last free page, counts one use of it, fills exactly its 1024 words with 0, and changes
-- nothing else.
pub get_free_page-Got : (m : Mm) → Got m (get_free_page m)
unfolding get_free_page
get_free_page-Got m = elim (Option-cases (scan paging_pages m.mem_map)) [
  | inl full ↦ rw (full, get_free_page) (exhausted (scan-none paging_pages m.mem_map full))
  | inr (i, found) ↦
      rw (found, get_free_page)
        (got (take_page-Fresh m i (scan-LastFree paging_pages m.mem_map found)))
]

Got-Fresh :
    {m m' : Mm} {p : ℕ} {r : Run ℕ}
    → Got m r
    → r ≡ ok p m'
    → p ≢ 0
    → (i : ℕ) × (p ≡ page_address i) × Fresh m i m'
Got-Fresh (exhausted full) e nz = absurd (nz (cc))
Got-Fresh (got {i} f) e nz = (i, cc, subst (Fresh _ i) (cc) f)

-- A page address that get_free_page returns is that of a page which was free.
pub get_free_page-Fresh :
    {m m' : Mm} {p : ℕ}
    → get_free_page m ≡ ok p m'
    → p ≢ 0
    → (i : ℕ) × (p ≡ page_address i) × Fresh m i m'
get_free_page-Fresh {m} e nz = Got-Fresh (get_free_page-Got m) e nz
