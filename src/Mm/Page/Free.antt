-- ===== src/Mm/Page/Free.antt =====
-- free_page of mm/memory.c, and what allocation and release do to the count that calc_mem prints.
use neu_os.Prelude.{
  ℕ, zero, suc, ◌+◌, ◌-◌, ◌≤◌, ◌<◌, ◌≡◌, refl, ◌≢◌, ◌⊎◌, inl, inr, ◌∙◌, sym, ap, ap₂, arith, ◌==◌,
  ℕ-cases, update, update_self, update_ne, fun_ext, if◌then◌else◌,
}
use neu_os.Mm.State.{Mm, ok, panic, low_mem, paging_pages, map_nr}
use neu_os.Mm.Page.{page_address, get_free_page, free_page, drop_page, count_free}
use neu_os.Mm.Page.Alloc.{Fresh, get_free_page-Fresh}

-- The end of the memory that 3840 pages above 1 MB make up.
abbrev pub memory_end : ℕ
memory_end = 0x100_0000

abbrev pub IsPaged : Mm → ℕ → Type 0
IsPaged m addr = (low_mem ≤ addr) × (addr < m.high_memory) × (m.high_memory ≤ memory_end)

free_page-drop :
    (m : Mm) (addr : ℕ)
    → low_mem ≤ addr
    → addr < m.high_memory
    → free_page addr m ≡ drop_page (map_nr addr) m
unfolding free_page
free_page-drop m addr lo hi = ground arith

-- free_page leaves an address below 1 MB, or at or above the end of memory, alone.
pub free_page_outside :
    (m : Mm) (addr : ℕ) → (addr < low_mem) ⊎ (m.high_memory ≤ addr) → free_page addr m ≡ ok tt m
unfolding free_page
free_page_outside m addr out = ground arith

-- On a page in use free_page takes one use back and changes nothing else; on a page that is free it
-- panics with the page still free. It never leaves mem_map.
pub free_page_inside :
    (m : Mm) (addr : ℕ)
    → IsPaged m addr
    → free_page addr m ≡ (
        if m.mem_map (map_nr addr) == 0
        then panic (record m { mem_map = update m.mem_map (map_nr addr) 0 })
        else ok tt
            (record m { mem_map = update m.mem_map (map_nr addr) (m.mem_map (map_nr addr) - 1) }))
unfolding free_page
free_page_inside m addr (lo, hi, top) = ground arith

pub map_nr-page_address : (i : ℕ) → i < paging_pages → map_nr (page_address i) ≡ i
map_nr-page_address i lt = omega arith

pub update_back : (map : ℕ → ℕ) (i v : ℕ) → map i ≡ 0 → update (update map i v) i 0 ≡ map
update_back map i v e = fun_ext (λ j. ground (arith, ap map))

drop-Fresh :
    {m m' : Mm} {i : ℕ}
    → Fresh m i m'
    → page_address i < m.high_memory
    → m.high_memory ≤ memory_end
    → (m'' : Mm) × (free_page (page_address i) m' ≡ ok tt m'') × (m''.mem_map ≡ m.mem_map)
drop-Fresh {m} {m'} {i} f lt top =
    let there : map_nr (page_address i) ≡ i = omega (arith, f.place.below) in
    let one : m'.mem_map i ≡ 1 = ap (λ map. map i) f.mem_map ∙ update_self m.mem_map i 1 in
    (
      record m' { mem_map = update m'.mem_map i 0 },
      free_page_inside m' (page_address i)
            (omega arith, omega (arith, f.high_memory), omega (arith, f.high_memory))
          ∙ (rw (there, one) refl),
      ap (λ map. update map i 0) f.mem_map ∙ update_back m.mem_map i 1 f.place.was_free,
    )

-- A page that get_free_page has taken and free_page gives back leaves mem_map as it was, provided
-- the page lies below the end of memory, which is at most 16 MB.
pub free_page-get_free_page :
    (m : Mm) {m' : Mm} {p : ℕ}
    → get_free_page m ≡ ok p m'
    → p ≢ 0
    → p < m.high_memory
    → m.high_memory ≤ memory_end
    → (m'' : Mm) × (free_page p m' ≡ ok tt m'') × (m''.mem_map ≡ m.mem_map)
free_page-get_free_page m {m'} {p} e nz lt top =
    let (i, at, f) = get_free_page-Fresh e nz in
    let (m'', freed, same) = drop-Fresh f (omega arith) top in
    (m'', ap (λ a. free_page a m') at ∙ freed, same)

count_free-same :
    (n : ℕ) (f g : ℕ → ℕ) → ((j : ℕ) → j < n → f j ≡ g j) → count_free n f ≡ count_free n g
unfolding count_free
count_free-same zero f g same = refl
count_free-same (suc n) f g same =
    ap₂ (λ (a b : ℕ). (if a == 0 then 1 else 0) + b) (same n (omega arith))
      (count_free-same n f g (λ j lt. same j (omega arith)))

count_free-update :
    (n : ℕ) (map : ℕ → ℕ) (i v : ℕ)
    → i < n
    → map i ≡ 0
    → v ≢ 0
    → count_free n map ≡ count_free n (update map i v) + 1
unfolding count_free
count_free-update zero map i v lt free nz = absurd (omega arith)
count_free-update (suc n) map i v lt free nz = elim (ℕ-cases i n) [
  | inl e ↦ ground (
    arith,
    ap map e,
    count_free-same n map (update map i v) (λ j lt'. sym (update_ne map i j v (omega arith))),
  )
  | inr ne ↦ ground (arith, update_ne map i n v, count_free-update n map i v)
]

-- Taking a page lowers the number of free pages that calc_mem counts by exactly one.
pub count_free-get_free_page :
    (m : Mm) {m' : Mm} {p : ℕ}
    → get_free_page m ≡ ok p m'
    → p ≢ 0
    → count_free paging_pages m.mem_map ≡ count_free paging_pages m'.mem_map + 1
count_free-get_free_page m e nz =
    let (i, at, f) = get_free_page-Fresh e nz in
    count_free-update paging_pages m.mem_map i 1 f.place.below f.place.was_free (omega arith)
    ∙ ap (λ map. count_free paging_pages map + 1) (sym f.mem_map)
