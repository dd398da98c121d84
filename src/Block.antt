-- ===== src/Block.antt =====
-- The block request queue of kernel/blk_drv (request_scan_algo.c, blk.h).
-- A `struct request *` is an index into req_tbl; request_fn of a device is not in the repository and
-- is not called here.
pub mod Order
pub mod Search
pub mod Make
pub mod Insert
mod Examples
use neu_os.Prelude.{
  ℕ, zero, suc, ◌+◌, ◌*◌, ◌/◌, ◌%◌, Bool, true, false, ◌&&◌, ◌||◌, not, Option, none, some, ltb,
  ◌==◌, if◌then◌else◌, update,
}
use neu_os.Prelude.Words.{slt, minus_one, word_mod}

abbrev pub nr_request : ℕ
nr_request = 32

-- READ, WRITE, READA and WRITEA of include/linux/fs.h.
abbrev pub read : ℕ
read = 0

abbrev pub write : ℕ
write = 1

-- `bh`, `buffer` and `waiting` are addresses; `next` is none for NULL.
pub record Request : Type 0 where
  pub dev : ℕ
  pub cmd : ℕ
  pub errors : ℕ
  pub sector : ℕ
  pub nr_sectors : ℕ
  pub buffer : ℕ
  pub waiting : ℕ
  pub bh : ℕ
  pub next : Option ℕ

abbrev pub Requests : Type 0
Requests = ℕ → Request

-- IN_ORDER(s1, s2), bracketed as the macro is.
unfoldable pub in_order : Request → Request → Bool
in_order s1 s2 =
    slt s1.cmd s2.cmd
    || (((s1.cmd == s2.cmd) && slt s1.dev s2.dev)
        || ((s1.dev == s2.dev) && ltb s1.sector s2.sector))

-- blk_dev_init: `n` entries from index `i` on.
unfoldable pub init_loop : ℕ → ℕ → Requests → Requests
init_loop zero i tbl = tbl
init_loop (suc n) i tbl =
    init_loop n (i + 1) (update tbl i (record (tbl i) { dev = minus_one; next = none }))

unfoldable pub blk_dev_init : Requests → Requests
blk_dev_init tbl = init_loop nr_request 0 tbl

-- `while(--req >= req_tbl)` of make_request: where `req` stands when the loop ends, none for one below
-- the table, and `available`.
unfoldable pub search_loop : ℕ → Requests → Bool → Option ℕ × Bool
search_loop zero tbl available = (none, available)
search_loop (suc i) tbl available =
    let rest = search_loop i tbl true in if slt (tbl i).dev 0 then (some i, available) else rest

-- The first entry that is not searched: writes leave a third of the table to reads.
abbrev pub search_start : ℕ → ℕ
search_start rw = if rw == read then nr_request else nr_request * 2 / 3

-- How `while(!available)` ends: with an entry, with the address below the table, or, for a request
-- that may not wait, with none. Waiting for a free entry is a case of its own.
pub data Slot : Type 0 where
  entry : ℕ → Slot
  below_table : Slot
  refused : Slot
  sleeps : Slot

-- After one search.
unfoldable pub judge : Bool → Option ℕ × Bool → Option Slot
judge rw_ahead (some i, true) = some (entry i)
judge rw_ahead (none, true) = some below_table
judge rw_ahead (some i, false) = none
judge rw_ahead (none, false) = some (if rw_ahead then refused else sleeps)

-- `while(!available)`; none when the rounds run out.
unfoldable pub find_slot : ℕ → ℕ → Bool → Requests → Option Slot
find_slot zero rw rw_ahead tbl = none
find_slot (suc rounds) rw rw_ahead tbl =
    elim (judge rw_ahead (search_loop (search_start rw) tbl false)) [
      | none ↦ find_slot rounds rw rw_ahead tbl
      | some s ↦ some s
    ]
