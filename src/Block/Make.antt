-- ===== src/Block/Make.antt =====
-- Making a request: add_request, lock_buffer, unlock_buffer, make_request and ll_rw_block of
-- kernel/blk_drv/request_scan_algo.c.
-- The request function of a device is not in the repository: it is a parameter, none for NULL, and may
-- change anything that it can reach.
use neu_os.Prelude.{
  ℕ, zero, suc, ◌*◌, ◌/◌, ◌%◌, Bool, ◌&&◌, ◌||◌, not, Option, none, some, ltb, ◌==◌, if◌then◌else◌,
  update,
}
use neu_os.Prelude.Words.{word_mod}
use neu_os.Task.{Table}
use neu_os.Sched.{wake_up}
use neu_os.Block.{
  Request, Requests, read, write, in_order, entry, below_table, refused, sleeps, find_slot,
}

abbrev reada : ℕ
reada = 2

abbrev writea : ℕ
writea = 3

abbrev nr_blk_dev : ℕ
nr_blk_dev = 7

-- `struct buffer_head`, without the links of the buffer cache, which this code does not use.
pub record BufferHead : Type 0 where
  pub b_data : ℕ
  pub b_blocknr : ℕ
  pub b_dev : ℕ
  pub b_uptodate : ℕ
  pub b_dirt : ℕ
  pub b_lock : ℕ
  pub b_wait : Option ℕ

-- The request table, the first request of each device, the buffers by their address, and the tasks.
pub record Drive : Type 0 where
  pub req_tbl : Requests
  pub current_request : ℕ → Option ℕ
  pub buffers : ℕ → BufferHead
  pub task : Table

abbrev pub Devices : Type 0
Devices = ℕ → Option (Drive → Drive)

unfoldable pub set_next : ℕ → Option ℕ → Requests → Requests
set_next i next tbl = update tbl i (record (tbl i) { next = next })

-- The `for` loop of add_request: the request after which the new one goes; none when the rounds run out.
unfoldable pub find_place : ℕ → Requests → ℕ → ℕ → Option ℕ
find_place zero tbl tmp req = none
find_place (suc rounds) tbl tmp req = elim (tbl tmp).next [
  | none ↦ some tmp
  | some next ↦
      let rest = find_place rounds tbl next req in
      if (in_order (tbl tmp) (tbl req) || not (in_order (tbl tmp) (tbl next)))
        && in_order (tbl req) (tbl next)
      then some tmp
      else rest
]

-- `req->next = tmp->next; tmp->next = req;`
unfoldable pub link_after : ℕ → ℕ → Requests → Requests
unfolding set_next
link_after tmp req tbl =
    let linked = set_next req (tbl tmp).next tbl in set_next tmp (some req) linked

unfoldable pub clear_dirt : ℕ → Drive → Drive
clear_dirt bh d =
    if bh == 0
    then d
    else record d { buffers = update d.buffers bh (record (d.buffers bh) { b_dirt = 0 }) }

-- add_request of device `major`; none when the rounds of its loop run out.
unfoldable pub add_request : ℕ → (Drive → Drive) → ℕ → ℕ → Drive → Option Drive
unfolding set_next find_place link_after clear_dirt
add_request rounds request_fn major req d =
    let tbl = set_next req none d.req_tbl in
    let d' = clear_dirt (tbl req).bh (record d { req_tbl = tbl }) in
    elim (d.current_request major) [
      | none ↦
          some (
            request_fn (record d' { current_request = update d'.current_request major (some req) }))
      | some first ↦ elim (find_place rounds tbl first req) [
        | none ↦ none
        | some tmp ↦ some (record d' { req_tbl = link_after tmp req tbl })
      ]
    ]

-- lock_buffer on a buffer that is not locked.
unfoldable pub lock_buffer : ℕ → Drive → Drive
lock_buffer bh d = record d { buffers = update d.buffers bh (record (d.buffers bh) { b_lock = 1 }) }

unfoldable pub unlock_buffer : ℕ → Drive → Drive
unlock_buffer bh d =
    let (wait, tasks) = wake_up (d.buffers bh).b_wait d.task in
    record d {
      buffers = update d.buffers bh (record (d.buffers bh) { b_lock = 0; b_wait = wait });
      task = tasks;
    }

-- How make_request goes on: it returns, it panics, it sleeps for the buffer's lock or for a free
-- request, it writes below the table, or its loops do not end in the rounds given.
pub data Made : Type 0 where
  returned waits_for_buffer waits_for_request writes_below_table : Drive → Made
  panicked never_ends : Made

unfoldable pub new_request : ℕ → ℕ → BufferHead → Request
new_request rw bh b = record {
  dev = b.b_dev;
  cmd = rw;
  errors = 0;
  sector = b.b_blocknr * 2 % word_mod;
  nr_sectors = 2;
  buffer = b.b_data;
  waiting = 0;
  bh = bh;
  next = none;
}

-- The end of make_request, with the entry found.
unfoldable pub place_request : ℕ → (Drive → Drive) → ℕ → ℕ → ℕ → ℕ → Drive → Made
unfolding add_request new_request
place_request rounds request_fn major rw bh i d =
    elim (add_request rounds request_fn major i
      (record d { req_tbl = update d.req_tbl i (new_request rw bh (d.buffers bh)) })) [
        | none ↦ never_ends
        | some d' ↦ returned d'
      ]

abbrev nothing_to_do : ℕ → BufferHead → Bool
nothing_to_do rw b = ((rw == write) && (b.b_dirt == 0)) || ((rw == read) && not (b.b_uptodate == 0))

-- make_request from the lock on.
unfoldable pub request_locked : ℕ → (Drive → Drive) → ℕ → ℕ → Bool → ℕ → Drive → Made
unfolding lock_buffer unlock_buffer place_request
request_locked rounds request_fn major rw rw_ahead bh d =
    let held = lock_buffer bh d in
    if nothing_to_do rw (d.buffers bh)
    then returned (unlock_buffer bh held)
    else elim (find_slot rounds rw rw_ahead held.req_tbl) [
      | none ↦ never_ends
      | some (entry i) ↦ place_request rounds request_fn major rw bh i held
      | some below_table ↦ writes_below_table held
      | some refused ↦ returned (unlock_buffer bh held)
      | some sleeps ↦ waits_for_request held
    ]

unfoldable pub make_request : ℕ → (Drive → Drive) → ℕ → ℕ → ℕ → Drive → Made
unfolding request_locked
make_request rounds request_fn major rw bh d =
    let rw_ahead = (rw == reada) || (rw == writea) in
    let rw' = if rw == reada then read else if rw == writea then write else rw in
    let locked = not ((d.buffers bh).b_lock == 0) in
    if rw_ahead && locked
    then returned d
    else if not ((rw' == read) || (rw' == write))
    then panicked
    else if locked
    then waits_for_buffer d
    else request_locked rounds request_fn major rw' rw_ahead bh d

unfoldable pub ll_rw_block : ℕ → Devices → ℕ → ℕ → Drive → Made
unfolding make_request
ll_rw_block rounds devices rw bh d =
    let major = (d.buffers bh).b_dev / 256 in
    if ltb major nr_blk_dev
    then elim (devices major) [
      | none ↦ returned d
      | some request_fn ↦ make_request rounds request_fn major rw bh d
    ]
    else returned d
