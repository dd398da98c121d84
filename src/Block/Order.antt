-- ===== src/Block/Order.antt =====
-- The order IN_ORDER of kernel/blk_drv/blk.h.
use neu_os.Prelude.{◌<◌, ◌≡◌, true, false, arith, ◌&&◌, ◌||◌, ltb, ◌==◌}
use neu_os.Prelude.Words.{slt}
use neu_os.Block.{Request, in_order}

-- Within one command IN_ORDER is the order by device and then by sector, and it is asymmetric.
pub in_order_same_cmd :
    (r s : Request)
    → r.cmd ≡ s.cmd
    → (in_order r s ≡ (slt r.dev s.dev || ((r.dev == s.dev) && ltb r.sector s.sector)))
      × (in_order r s ≡ true → in_order s r ≡ false)
unfolding in_order
in_order_same_cmd r s e = ground arith

-- Across commands it is not: two requests to one device, of which the lower command has the higher
-- sector, are each in order before the other.
pub in_order_both_ways :
    (r s : Request)
    → slt r.cmd s.cmd ≡ true
    → r.dev ≡ s.dev
    → s.sector < r.sector
    → (in_order r s ≡ true) × (in_order s r ≡ true)
unfolding in_order
in_order_both_ways r s c d h = ground arith
