-- ===== src/Block/Search.antt =====
-- The search for a free entry in make_request of kernel/blk_drv/request_scan_algo.c.
use mathlib.Core.Path.{subst}
use neu_os.Prelude.{
  ℕ, zero, suc, ◌+◌, ◌≤◌, ◌<◌, ◌≡◌, refl, inl, inr, ◌∙◌, sym, ap, Bool, true, false, arith, Option,
  none, some, ◌==◌, Bool-cases, ℕ-cases, update, update_self, update_ne,
}
use neu_os.Prelude.Words.{slt, minus_one}
use neu_os.Block.{
  Requests, nr_request, search_loop, search_start, Slot, entry, below_table, judge, find_slot,
  init_loop, blk_dev_init, read,
}

-- `dev < 0` marks a free entry.
abbrev pub is_free : Requests → ℕ → Bool
is_free tbl i = slt (tbl i).dev 0

-- The highest free entry below `n`.
pub record HighestFree (tbl : Requests) (n i : ℕ) : Type 0 where
  pub below : i < n
  pub free : is_free tbl i ≡ true
  pub highest : (j : ℕ) → i < j → j < n → is_free tbl j ≡ false

data Found (tbl : Requests) (n : ℕ) : Option ℕ × Bool → Type 0 where
  at : {i : ℕ} → HighestFree tbl n i → Found tbl n (some i, true)
  none_free : ((j : ℕ) → j < n → is_free tbl j ≡ false) → Found tbl n (none, true)

widen :
    (tbl : Requests) (n : ℕ) {r : Option ℕ × Bool}
    → is_free tbl n ≡ false
    → Found tbl n r
    → Found tbl (suc n) r
widen tbl n busy (at {i} h) = at (record {
  below = omega (arith, h.below);
  free = h.free;
  highest = λ j lo hi. elim (ℕ-cases j n) [
    | inl e ↦ ap (is_free tbl) e ∙ busy
    | inr ne ↦ h.highest j lo (omega arith)
  ];
})
widen tbl n busy (none_free none_) = none_free λ j lt. elim (ℕ-cases j n) [
  | inl e ↦ ap (is_free tbl) e ∙ busy
  | inr ne ↦ none_ j (omega arith)
]

search_loop-Found : (n : ℕ) (tbl : Requests) → Found tbl n (search_loop n tbl true)
unfolding search_loop
search_loop-Found zero tbl = none_free (λ j lt. absurd (omega arith))
search_loop-Found (suc n) tbl = elim (Bool-cases (is_free tbl n)) [
  | inl free ↦
      rw free (
        at (record { below = omega arith; free = free; highest = λ j lo hi. absurd (omega arith) }))
  | inr busy ↦ rw busy (widen tbl n busy (search_loop-Found n tbl))
]

init_loop-dev :
    (n i : ℕ) (tbl : Requests) (j : ℕ)
    → (i ≤ j → j < i + n → is_free (init_loop n i tbl) j ≡ true)
      × (j < i → init_loop n i tbl j ≡ tbl j)
unfolding init_loop
init_loop-dev zero i tbl j = (λ lo hi. absurd (omega arith), λ lt. refl)
init_loop-dev (suc n) i tbl j =
    let entry_i = record (tbl i) { dev = minus_one; next = none } in
    let rest = init_loop-dev n (i + 1) (update tbl i entry_i) j in
    (
      λ lo hi. elim (ℕ-cases j i) [
        | inl e ↦
            ap (λ r. slt r.dev 0)
              (rest.1 (omega arith)
                ∙ subst (λ k. update tbl i entry_i k ≡ entry_i) (sym e) (update_self tbl i entry_i))
        | inr ne ↦ rest.0 (omega arith) (omega arith)
      ],
      λ lt. rest.1 (omega arith) ∙ update_ne tbl i j entry_i (omega arith),
    )

-- After blk_dev_init every entry of the table is free.
pub blk_dev_init_frees :
    (tbl : Requests) (j : ℕ) → j < nr_request → is_free (blk_dev_init tbl) j ≡ true
unfolding blk_dev_init
blk_dev_init_frees tbl j lt = (init_loop-dev nr_request 0 tbl j).0 (omega arith) (omega arith)

search_start_top : (cmd : ℕ) → (top : ℕ) × (search_start cmd ≡ suc top) × (top < nr_request)
search_start_top cmd = elim (Bool-cases (cmd == read)) [
  | inl e ↦ (31, ground (arith, e), omega arith)
  | inr ne ↦ (20, ground (arith, ne), omega arith)
]

-- What an entry handed out, or the address below the table, says of the table.
pub data Placed (tbl : Requests) (n : ℕ) : Slot → Type 0 where
  placed : {i : ℕ} → HighestFree tbl n i → Placed tbl n (entry i)
  outside : ((j : ℕ) → j < n → is_free tbl j ≡ false) → Placed tbl n below_table

Found-Placed :
    (ahead : Bool) (tbl : Requests) (n : ℕ) {r : Option ℕ × Bool}
    → Found tbl n r
    → (s : Slot) × (judge ahead r ≡ some s) × Placed tbl n s
unfolding judge
Found-Placed ahead tbl n (at {i} h) = (entry i, refl, placed h)
Found-Placed ahead tbl n (none_free h) = (below_table, refl, outside h)

module _ (cmd : ℕ) (ahead : Bool) (tbl : Requests) where
  module _ (top : ℕ) (starts : search_start cmd ≡ suc top) where
    search_top_free :
        is_free tbl top ≡ true → search_loop (search_start cmd) tbl false ≡ (some top, false)
    unfolding search_loop
    search_top_free free = rw (starts, free) refl

    search_top_busy :
        is_free tbl top ≡ false
        → search_loop (search_start cmd) tbl false ≡ search_loop top tbl true
    unfolding search_loop
    search_top_busy busy = rw (starts, busy) refl

    -- When the first entry looked at is free, the search for an entry never ends: `available` is set
    -- only by an entry that is not free.
    pub find_slot_hangs :
        is_free tbl top ≡ true → (rounds : ℕ) → find_slot rounds cmd ahead tbl ≡ none
    unfolding find_slot judge
    find_slot_hangs free zero = refl
    find_slot_hangs free (suc rounds) =
        rw (find_slot, search_top_free free) (find_slot_hangs free rounds)

  -- When the first entry looked at is not free, one round ends the search: with the highest free entry
  -- or, if there is none, with the address below the table, where make_request then writes.
  pub find_slot-Placed :
      (top : ℕ)
      → search_start cmd ≡ suc top
      → is_free tbl top ≡ false
      → (rounds : ℕ)
      → (s : Slot) × (find_slot (suc rounds) cmd ahead tbl ≡ some s) × Placed tbl (suc top) s
  unfolding find_slot
  find_slot-Placed top starts busy rounds =
      let found =
        Found-Placed ahead tbl (suc top) (widen tbl top busy (search_loop-Found top tbl)) in
      (found.0, rw (find_slot, search_top_busy top starts busy, found.1) refl, found.2)

-- On the table that blk_dev_init leaves, the search for an entry never ends.
pub find_slot-blk_dev_init :
    (cmd : ℕ) (ahead : Bool) (tbl : Requests) (rounds : ℕ)
    → find_slot rounds cmd ahead (blk_dev_init tbl) ≡ none
find_slot-blk_dev_init cmd ahead tbl rounds =
    let start = search_start_top cmd in
    find_slot_hangs cmd ahead (blk_dev_init tbl) start.0 start.1
      (blk_dev_init_frees tbl start.0 start.2) rounds
