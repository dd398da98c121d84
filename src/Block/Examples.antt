-- ===== src/Block/Examples.antt =====
-- A table whose entries are in use, and two requests.
use neu_os.Prelude.{[], ◌∷◌, ◌*◌, ℕ, ◌≡◌, refl, false, none, some, arith, ◌==◌, if◌then◌else◌}
use neu_os.Block.{Request, Requests, blk_dev_init, find_slot, write}
use neu_os.Block.Insert.{end, link, Inserted, find_place-Inserted}
use neu_os.Block.Search.{find_slot-blk_dev_init}

abbrev request : ℕ → ℕ → Request
request cmd sector = record {
  dev = 0x301;
  cmd = cmd;
  errors = 0;
  sector = sector;
  nr_sectors = 2;
  buffer = 0;
  waiting = 0;
  bh = 0;
  next = none;
}

abbrev table : Requests
table i = if i == 4 then record (request 0 0) { dev = 0xffff_ffff } else request 0 i

find_slot-blk_dev_init_example : find_slot 100 write false (blk_dev_init table) ≡ none
find_slot-blk_dev_init_example = find_slot-blk_dev_init write false table 100

-- Request 0 is before request 1, and request 4 is new.
abbrev listed : Requests
listed i = if i == 0 then record (request 0 1) { next = some 1 } else request 0 (i * 2)

find_place-Inserted_example : Inserted listed 5 4 0 (1 ∷ [])
find_place-Inserted_example =
    find_place-Inserted 5 listed 4 {i = 0} {xs = 1 ∷ []} ((omega arith, tt), (tt, tt))
      (omega arith, (omega arith, tt)) (link refl (end refl)) (omega arith)
