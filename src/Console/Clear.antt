-- ===== src/Console/Clear.antt =====
-- video_clear and video_init of kernel/chr_drv/vga_console.c.
use neu_os.Prelude.{
  ℕ, zero, suc, ◌+◌, ◌/◌, ◌%◌, ◌≤◌, ◌<◌, ◌≡◌, refl, arith, ltb, leb, ◌&&◌, ◌==◌, if◌then◌else◌,
}
use neu_os.Console.{
  Vga, video_putchar_at, blank_column, blank_columns, video_clear, video_init, update_cursor,
}

-- A blank cell: a space in the even byte, the attribute in the odd one.
abbrev pub blank : ℕ → ℕ
blank b = if b % 2 == 0 then 32 else 0x0f

put-blank :
    (i j b : ℕ) (buf : ℕ → ℕ)
    → i < 80
    → j < 25
    → video_putchar_at 32 i j 0x0f buf b
      ≡ (if (b / 2 % 80 == i) && (b / 160 == j) then blank b else buf b)
unfolding video_putchar_at
put-blank i j b buf hi hj = ground arith

blank_column-blank :
    (n i j b : ℕ) (buf : ℕ → ℕ)
    → i < 80
    → j + n ≤ 25
    → blank_column n i j buf b
      ≡ (if (b / 2 % 80 == i) && leb j (b / 160) && ltb (b / 160) (j + n) then blank b else buf b)
unfolding blank_column
blank_column-blank zero i j b buf hi hj = ground arith
blank_column-blank (suc n) i j b buf hi hj = ground (
  arith,
  blank_column-blank n i (j + 1) b (video_putchar_at 32 i j 0x0f buf) hi (omega arith),
  put-blank i j b buf hi (omega arith),
)

blank_columns-blank :
    (n i b : ℕ) (buf : ℕ → ℕ)
    → i + n ≤ 80
    → blank_columns n i buf b
      ≡ (if leb i (b / 2 % 80) && ltb (b / 2 % 80) (i + n) && ltb b 4000 then blank b else buf b)
unfolding blank_columns
blank_columns-blank zero i b buf hi = ground arith
blank_columns-blank (suc n) i b buf hi = ground (
  arith,
  blank_columns-blank n (i + 1) b (blank_column 25 i 0 buf) (omega arith),
  blank_column-blank 25 i 0 b buf (omega arith) (omega arith),
)

-- video_init blanks each of the 4000 bytes of the screen, writes no other byte, and puts the cursor into
-- the first column of the first line.
pub video_init-blank :
    (v : Vga) (b : ℕ)
    → ((video_init v).buffer b ≡ (if ltb b 4000 then blank b else v.buffer b))
      × ((video_init v).video_x ≡ 0)
      × ((video_init v).video_y ≡ 0)
unfolding video_init video_clear update_cursor
video_init-blank v b =
    (ground (arith, blank_columns-blank 80 0 b v.buffer (omega arith)), refl, refl)
