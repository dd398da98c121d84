-- ===== src/Kernel/Segment.antt =====
-- Segment descriptors: _set_base and _get_base of include/linux/sched.h, _set_tssldt_desc and _set_gate
-- of include/asm/system.h.
-- A descriptor is its two words, `a` with the bytes 0 to 3 and `b` with the bytes 4 to 7.
use neu_os.Prelude.{ℕ, ◌+◌, ◌*◌, ◌/◌, ◌%◌, ◌^◌, ◌<◌, ◌≡◌, arith}
use neu_os.Task.{Desc}

-- Bytes 2 and 3 are the low half of the base, byte 4 and byte 7 its third and its highest byte.
unfoldable pub set_base : ℕ → Desc → Desc
set_base base d = record {
  a = d.a % 2 ^ 16 + base % 2 ^ 16 * 2 ^ 16;
  b = base / 2 ^ 16 % 2 ^ 8 + d.b / 2 ^ 8 % 2 ^ 16 * 2 ^ 8 + base / 2 ^ 24 * 2 ^ 24;
}

unfoldable pub get_base : Desc → ℕ
get_base d = d.a / 2 ^ 16 + d.b % 2 ^ 8 * 2 ^ 16 + d.b / 2 ^ 24 * 2 ^ 24

-- Limit 104, the address as base, the type in byte 5, and no flags.
unfoldable pub set_tssldt_desc : ℕ → ℕ → Desc
set_tssldt_desc addr type = record {
  a = 104 + addr % 2 ^ 16 * 2 ^ 16;
  b = addr / 2 ^ 16 % 2 ^ 8 + type * 2 ^ 8 + addr / 2 ^ 24 * 2 ^ 24;
}

-- _set_gate: the selector 8, the address, and 0x8000 + (dpl << 13) + (type << 8).
unfoldable pub set_gate : ℕ → ℕ → ℕ → Desc
set_gate type dpl funaddr = record {
  a = 8 * 2 ^ 16 + funaddr % 2 ^ 16;
  b = funaddr / 2 ^ 16 * 2 ^ 16 + (0x8000 + dpl * 2 ^ 13 + type * 2 ^ 8) % 2 ^ 16;
}

-- The base that set_base writes is the one that get_base reads, the limit and the flags in the
-- descriptor are kept, and the descriptors of set_tss_desc and set_ldt_desc have the address as base.
pub get_base-set_base :
    (base : ℕ) (d : Desc) (type : ℕ)
    → base < 2 ^ 32
    → d.a < 2 ^ 32
    → d.b < 2 ^ 32
    → type < 2 ^ 8
    → (get_base (set_base base d) ≡ base)
      × ((set_base base d).a % 2 ^ 16 ≡ d.a % 2 ^ 16)
      × ((set_base base d).b / 2 ^ 8 % 2 ^ 16 ≡ d.b / 2 ^ 8 % 2 ^ 16)
      × (get_base (set_tssldt_desc base type) ≡ base)
unfolding set_base get_base set_tssldt_desc
get_base-set_base base d type hb ha hb' ht = omega arith
