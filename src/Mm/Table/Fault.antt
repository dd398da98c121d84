-- ===== src/Mm/Table/Fault.antt =====
-- The page fault handler do_no_page of mm/memory.c.
use neu_os.Prelude.{
  ℕ, ◌+◌, ◌*◌, ◌/◌, ◌^◌, ◌<◌, ◌≡◌, refl, ◌≢◌, inl, inr, ◌∙◌, sym, ap, ap₂, arith, ◌==◌, update,
  update_self, update_ne, ne→==_false, lt-cases, ℕ-cases, if◌then◌else◌,
}
use neu_os.Mm.State.{Mm, Run, ok, panic, and_then, paging_pages, page_size, map_nr, frame, present}
use neu_os.Mm.Page.{page_address, free_page}
use neu_os.Mm.Page.Alloc.{Fresh, Got, exhausted, got, get_free_page-Got}
use neu_os.Mm.Page.Free.{update_back, map_nr-page_address}
use neu_os.Mm.Table.{put_page, give_up, do_no_page}
use neu_os.Mm.Table.Walk.{walk, walk-same, WellFormed, not-table, Fresh-WellFormed, dir-kept}
use neu_os.Mm.Table.Put.{IsReady, IsData}
use neu_os.Mm.Table.New.{Put, no_table, mapped, put_page-Put}

-- At most one page was free.
abbrev pub NearlyFull : Mm → Type 0
NearlyFull m =
    (i j : ℕ) → i < paging_pages → j < paging_pages → m.mem_map i ≡ 0 → m.mem_map j ≡ 0 → i ≡ j

-- What do_no_page has done when it returns: page `i`, which was free, is zero and mapped.
pub record Paged (m : Mm) (address i : ℕ) (m' : Mm) : Type 0 where
  pub inside : i < paging_pages
  pub was_free : m.mem_map i ≡ 0
  pub here : walk m' address ≡ page_address i + 7
  pub zeroed : (k : ℕ) → k < 1024 → m'.phys (page_address i + 4 * k) ≡ 0
  pub elsewhere : (b : ℕ) → b < 2 ^ 32 → b / page_size ≢ address / page_size → walk m' b ≡ walk m b
  pub order : WellFormed m'

pub data Served (m : Mm) (address : ℕ) : Run (Unit {0}) → Type 0 where
  out_of_memory : {m' : Mm} → NearlyFull m → m'.mem_map ≡ m.mem_map → Served m address (panic m')
  served : {i : ℕ} {m' : Mm} → Paged m address i m' → Served m address (ok tt m')

walk-frame : (m : Mm) (a : ℕ) → walk m (frame a) ≡ walk m a
walk-frame m a =
    ap₂ (λ d i. if present (m.phys d) then m.phys (frame (m.phys d) + 4 * i) else 0) (omega arith)
      (omega arith)

give_up-ready :
    (m : Mm) (page : ℕ)
    → IsReady m page
    → give_up page m ≡ panic (record m { mem_map = update m.mem_map (map_nr page) 0 })
unfolding give_up free_page
give_up-ready m page r = ground (arith, r.once)

module _ {m m₁ : Mm} {i : ℕ} (f : Fresh m i m₁) (w : WellFormed m) where
  Fresh-IsReady : IsReady m₁ (page_address i)
  Fresh-IsReady = record {
    above = omega arith;
    below = elim (lt-cases (page_address i) m₁.high_memory) [
      | inl lt ↦ lt
      | inr le ↦ absurd (w.reserved i f.place.below (omega (arith, f.high_memory)) f.place.was_free)
    ];
    inside = omega (arith, f.place.below);
    once =
        ap (λ map. map (map_nr (page_address i))) f.mem_map
        ∙ ap (update m.mem_map i 1) (map_nr-page_address i f.place.below)
        ∙ update_self m.mem_map i 1;
  }

  only :
      ((j : ℕ) → j < paging_pages → m₁.mem_map j ≢ 0)
      → (c : ℕ) → c < paging_pages
      → m.mem_map c ≡ 0
      → c ≡ i
  only full c lt e = elim (ℕ-cases c i) [
    | inl same ↦ same
    | inr ne ↦ absurd (full c lt (ap (λ map. map c) f.mem_map ∙ update_ne m.mem_map i c 1 ne ∙ e))
  ]

  Fresh-NearlyFull : ((j : ℕ) → j < paging_pages → m₁.mem_map j ≢ 0) → NearlyFull m
  Fresh-NearlyFull full a b la lb ea eb = only full a la ea ∙ sym (only full b lb eb)

  walk-Fresh : (b : ℕ) → b < 2 ^ 32 → walk m₁ b ≡ walk m b
  walk-Fresh b lt = walk-same m m₁ b (dir-kept f (b / 2 ^ 22) (omega arith)) λ here.
      let above = w.above (b / 2 ^ 22) (omega arith, here) in
      let away = not-table f w (b / 2 ^ 22) (omega arith, here) in f.kept _ (omega arith)

  Fresh-IsData : IsData m₁ i
  Fresh-IsData = (
    λ e.
        absurd
          (omega (arith, Fresh-IsReady.once, ap m₁.mem_map (map_nr-page_address i f.place.below))),
    λ d (lt, here).
        let same = dir-kept f d lt in
        λ e. not-table f w d (lt, ap present (sym same) ∙ here) (ap frame (sym same) ∙ e),
  )

  finish :
      (address : ℕ) {r : Run ℕ}
      → Put m₁ (page_address i) (frame address) r
      → Served m address (and_then r (λ put. if put == 0 then give_up (page_address i) else ok tt))
  finish address (no_table {m'} full map high phys) =
      rw
        (give_up-ready m' (page_address i) (record {
          above = omega arith;
          below = omega (arith, Fresh-IsReady.below, high);
          inside = omega (arith, Fresh-IsReady.inside);
          once = ap (λ t. t (map_nr (page_address i))) map ∙ Fresh-IsReady.once;
        }))
        (out_of_memory (Fresh-NearlyFull full) (
          ap₂ (λ t c. update t c 0) (map ∙ f.mem_map) (map_nr-page_address i f.place.below)
          ∙ update_back m.mem_map i 1 f.place.was_free))
  finish address (mapped {m'} p once high) = rw (ne→==_false (page_address i) 0 (omega arith)) (
      served (record {
        inside = f.place.below;
        was_free = f.place.was_free;
        here = sym (walk-frame m' address) ∙ p.here ∙ omega arith;
        zeroed = λ k lt. p.content i Fresh-IsData k lt ∙ f.zeroed k lt;
        elsewhere = λ b lt other. p.elsewhere b lt (λ e. other (omega arith)) ∙ walk-Fresh b lt;
        order = p.order;
      }))

do_no_page-Got :
    (m : Mm) (error_code address : ℕ) {r : Run ℕ}
    → Got m r
    → WellFormed m
    → address < 2 ^ 32
    → Served m address (
        and_then r (λ page. if page == 0 then panic else (λ m'.
          and_then
            (put_page page (frame address) m')
            (λ put. if put == 0 then give_up page else ok tt))))
do_no_page-Got m error_code address (exhausted full) w small =
    out_of_memory (λ i j li lj ei ej. absurd (full i li ei)) refl
do_no_page-Got m error_code address (got {i} {m' = m₁} f) w small =
    rw (ne→==_false (page_address i) 0 (omega arith)) (
      finish f w address (
        put_page-Put m₁ (page_address i) (frame address) (Fresh-IsReady f w) (Fresh-WellFormed f w)
          (omega arith)))

-- On page tables that are in order, do_no_page either panics, and then at most one page was free and
-- mem_map is as before; or it returns with a page that was free, all zero, mapped at the faulting
-- page as present, writable and for the user, every other page of the address space mapped as before,
-- and the tables in order. It never accesses mem_map out of range.
pub do_no_page-Served :
    (m : Mm) (error_code address : ℕ)
    → WellFormed m
    → address < 2 ^ 32
    → Served m address (do_no_page error_code address m)
unfolding do_no_page
do_no_page-Served m error_code address w small =
    do_no_page-Got m error_code address (get_free_page-Got m) w small
