-- ===== src/Mm/Page/Init.antt =====
-- mem_init of mm/memory.c: which pages are free when it returns.
use neu_os.Prelude.{
  ℕ, zero, suc, ◌+◌, ◌-◌, ◌%◌, ◌≤◌, ◌<◌, ◌≡◌, refl, ◌∙◌, arith, ◌/◌, ◌^◌, ltb, leb, ◌&&◌,
  if◌then◌else◌, lt→ltb, update,
}
use neu_os.Mm.State.{Mm, ok, low_mem, paging_pages, page_size, used, map_nr}
use neu_os.Mm.Page.{fill_map, set_high, mem_init, page_address}
use neu_os.Mm.Page.Free.{memory_end}

-- What `n` writes of `v` from index `i` on make of the map.
abbrev pub filled : ℕ → ℕ → ℕ → (ℕ → ℕ) → ℕ → ℕ
filled v n i map j = if leb i j && ltb j (i + n) then v else map j

record Filled (v n i : ℕ) (m m' : Mm) : Type 0 where
  map : (j : ℕ) → m'.mem_map j ≡ filled v n i m.mem_map j
  phys : m'.phys ≡ m.phys
  high_memory : m'.high_memory ≡ m.high_memory
  log : m'.log ≡ m.log

fill_map-Filled :
    (v n i : ℕ) (m : Mm)
    → i + n ≤ paging_pages
    → (m' : Mm) × (fill_map v n i m ≡ ok tt m') × Filled v n i m m'
unfolding fill_map
fill_map-Filled v zero i m room =
    (m, refl, record { map = λ j. ground arith; phys = refl; high_memory = refl; log = refl })
fill_map-Filled v (suc n) i m room =
    let here : Mm = record m { mem_map = update m.mem_map i v } in
    let (m', run, f) = fill_map-Filled v n (i + 1) here (omega arith) in
    (
      m',
      rw (lt→ltb i paging_pages (omega arith)) run,
      record {
        map = λ j. ground (arith, f.map j);
        phys = f.phys;
        high_memory = f.high_memory;
        log = f.log;
      },
    )

-- Memory from `start_mem` to `end_mem` is free, and every other page counts as used.
abbrev pub initial : ℕ → ℕ → ℕ → ℕ
initial start_mem end_mem i =
    if leb start_mem (page_address i) && ltb (page_address i) end_mem then 0 else used

-- For page boundaries between 1 MB and 16 MB mem_init stays inside mem_map, frees exactly the pages
-- from `start_mem` up to `end_mem`, marks the others used, sets the end of memory, and touches
-- nothing else.
pub mem_init-initial :
    (start_mem end_mem : ℕ) (m : Mm)
    → low_mem ≤ start_mem
    → start_mem ≤ end_mem
    → end_mem ≤ memory_end
    → start_mem % page_size ≡ 0
    → end_mem % page_size ≡ 0
    → (m' : Mm) × (mem_init start_mem end_mem m ≡ ok tt m')
      × ((i : ℕ) → i < paging_pages → m'.mem_map i ≡ initial start_mem end_mem i)
      × (m'.high_memory ≡ end_mem)
      × (m'.phys ≡ m.phys)
unfolding mem_init set_high
mem_init-initial start_mem end_mem m lo le hi sa ea =
    let high : Mm = record m { high_memory = end_mem } in
    let n : ℕ = (end_mem + 2 ^ 32 - start_mem) % 2 ^ 32 / page_size in
    let first : ℕ = map_nr start_mem in
    let (m₁, run₁, f₁) = fill_map-Filled used paging_pages 0 high (omega arith) in
    let (m₂, run₂, f₂) = fill_map-Filled 0 n first m₁ (omega arith) in
    (
      m₂,
      rw (run₁, run₂) refl,
      λ i lt. ground (arith, f₂.map i, f₁.map i),
      f₂.high_memory ∙ f₁.high_memory,
      f₂.phys ∙ f₁.phys,
    )
