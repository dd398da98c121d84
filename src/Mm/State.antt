-- ===== src/Mm/State.antt =====
-- The memory that mm/memory.c works on, and its commands.
-- Physical memory is a map from the address of a 32-bit word to the word; the page directory is the
-- page at address 0, as the code has it. `mem_map` has 3840 bytes: an access outside is a fault.
-- A mask by a constant is written as the quotient or remainder that it computes on a 32-bit word.
use neu_os.Prelude.{
  ℕ, ◌+◌, ◌-◌, ◌*◌, ◌/◌, ◌%◌, ◌^◌, Bool, List, ◌∷◌, ltb, ◌==◌, if◌then◌else◌, update,
}
use neu_os.Prelude.Words.{sub32}

-- What put_page reports by printk.
pub data Diag : Type 0 where
  page_outside map_disagrees : ℕ → ℕ → Diag
  no_free_page : Diag

pub record Mm : Type 0 where
  pub phys : ℕ → ℕ
  pub mem_map : ℕ → ℕ
  pub high_memory : ℕ
  pub log : List Diag

-- `panic` does not return: it prints and loops.
pub data Run (A : Type 0) : Type 0 where
  ok : A → Mm → Run A
  panic : Mm → Run A
  fault : Run A

abbrev pub Cmd : Type 0 → Type 0
Cmd A = Mm → Run A

abbrev pub pure : {A : Type 0} → A → Cmd A
pure = ok

module _ {A B : Type 0} where
  abbrev pub and_then : Run A → (A → Cmd B) → Run B
  and_then (ok a m) k = k a m
  and_then (panic m) k = panic m
  and_then fault k = fault

  infixl 5 ◌>>=◌ ◌>>◌
  abbrev pub ◌>>=◌ : Cmd A → (A → Cmd B) → Cmd B
  c >>= k = λ m. and_then (c m) k

  abbrev pub ◌>>◌ : Cmd A → Cmd B → Cmd B
  c >> d = c >>= λ _. d

abbrev pub low_mem : ℕ
low_mem = 0x100000

abbrev pub paging_pages : ℕ
paging_pages = 3840

abbrev pub used : ℕ
used = 100

abbrev pub page_size : ℕ
page_size = 4096

-- MAP_NR(addr)
abbrev pub map_nr : ℕ → ℕ
map_nr addr = sub32 addr low_mem / page_size

-- `x & 0xfffff000`
abbrev pub frame : ℕ → ℕ
frame x = x / page_size * page_size

-- `x & 1`, as a test
abbrev pub present : ℕ → Bool
present x = x % 2 == 1

-- `(address >> 20) & 0xffc`, the address of the page directory entry
abbrev pub dir_entry : ℕ → ℕ
dir_entry address = 4 * (address / 2 ^ 22)

-- `(address >> 12) & 0x3ff`
abbrev pub table_index : ℕ → ℕ
table_index address = address / page_size % 1024

-- `x | 7`
abbrev pub or7 : ℕ → ℕ
or7 x = x / 8 * 8 + 7

-- `x | 2` and `x & ~2`
abbrev pub or2 : ℕ → ℕ
or2 x = if x / 2 % 2 == 1 then x else x + 2

abbrev pub and_not2 : ℕ → ℕ
and_not2 x = x - x / 2 % 2 * 2

abbrev pub read : ℕ → Cmd ℕ
read a m = ok (m.phys a) m

abbrev pub write : ℕ → ℕ → Cmd (Unit {0})
write a v m = ok tt (record m { phys = update m.phys a v })

-- `mem_map[i]`
abbrev pub get_map : ℕ → Cmd ℕ
get_map i m = if ltb i paging_pages then ok (m.mem_map i) m else fault

abbrev pub set_map : ℕ → ℕ → Cmd (Unit {0})
set_map i v m =
    if ltb i paging_pages then ok tt (record m { mem_map = update m.mem_map i v }) else fault

abbrev pub report : Diag → Cmd (Unit {0})
report d m = ok tt (record m { log = d ∷ m.log })

abbrev pub oom : {A : Type 0} → Cmd A
oom m = panic m
