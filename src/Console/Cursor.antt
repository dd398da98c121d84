-- ===== src/Console/Cursor.antt =====
-- The cursor of kernel/chr_drv/vga_console.c and the bytes that video_putchar writes.
use neu_os.Prelude.{
  ℕ, zero, suc, ◌+◌, ◌-◌, ◌*◌, ◌/◌, ◌%◌, ◌≤◌, ◌<◌, ◌≡◌, ◌∙◌, arith, ◌==◌, if◌then◌else◌,
}
use neu_os.Console.{
  Vga, video_x_sz, video_y_sz, tab_len, cell, video_putchar_at, tab_loop, step_back, put_branch,
  wrap_line, wrap_screen, update_cursor, video_putchar,
}
use neu_os.Console.Scroll.{roll_screen-rolled}

pub record InScreen (v : Vga) : Type 0 where
  pub column : v.video_x < video_x_sz
  pub line : v.video_y < video_y_sz

-- The tab loop ends at the next multiple of 8, which is the column itself at a tab stop.
pub tab_loop_lem :
    (n x : ℕ) → (tab_len - x % tab_len) % tab_len ≤ n → tab_loop n x ≡ (x + 7) / tab_len * tab_len
unfolding tab_loop
tab_loop_lem zero x enough = omega arith
tab_loop_lem (suc n) x enough = ground (arith, tab_loop_lem n (x + 1))

-- The cursor between the branch on the character and the tests that wrap it.
record Near (v : Vga) : Type 0 where
  column : v.video_x ≤ video_x_sz
  line : v.video_y ≤ video_y_sz
  corner : v.video_x ≡ video_x_sz → v.video_y < video_y_sz

put_branch-Near : (ch : ℕ) (v : Vga) → InScreen v → Near (put_branch ch v)
unfolding put_branch step_back
put_branch-Near ch v s = ground (arith, tab_loop_lem 7 v.video_x (omega arith))

wrap-InScreen : (v : Vga) → Near v → InScreen (wrap_screen (wrap_line v))
unfolding wrap_screen wrap_line
wrap-InScreen v n = ground arith

-- Whatever character is put, the cursor stays on the 80 by 25 screen.
pub video_putchar-InScreen : (ch : ℕ) (v : Vga) → InScreen v → InScreen (video_putchar ch v)
unfolding video_putchar update_cursor
video_putchar-InScreen ch v s =
    let w = wrap-InScreen (put_branch ch v) (put_branch-Near ch v s) in
    record { column = w.column; line = w.line }

put_branch_away :
    (ch : ℕ) (v : Vga) (j : ℕ) → InScreen v → 4000 ≤ j → (put_branch ch v).buffer j ≡ v.buffer j
unfolding put_branch step_back video_putchar_at
put_branch_away ch v j s far = ground arith

wrap_away : (v : Vga) (j : ℕ) → 4000 ≤ j → (wrap_screen (wrap_line v)).buffer j ≡ v.buffer j
unfolding wrap_screen wrap_line
wrap_away v j far = ground (arith, roll_screen-rolled v.buffer j)

-- video_putchar writes no byte outside the 4000 bytes of the screen.
pub video_putchar_away :
    (ch : ℕ) (v : Vga) (j : ℕ) → InScreen v → 4000 ≤ j → (video_putchar ch v).buffer j ≡ v.buffer j
unfolding video_putchar update_cursor
video_putchar_away ch v j s far = wrap_away (put_branch ch v) j far ∙ put_branch_away ch v j s far

-- A backspace in column 0 leaves the cursor where it is, but in line 0, where it moves the cursor down
-- to line 1.
pub backspace_at_margin :
    (v : Vga)
    → InScreen v
    → v.video_x ≡ 0
    → ((video_putchar 8 v).video_x ≡ 0)
      × ((video_putchar 8 v).video_y ≡ (if v.video_y == 0 then 1 else v.video_y))
unfolding video_putchar update_cursor put_branch step_back wrap_line wrap_screen
backspace_at_margin v s e = ground arith

-- A character that is not a control character is shown at the cursor, with attribute 15, when neither
-- the line nor the screen ends there.
pub video_putchar_shows :
    (ch : ℕ) (v : Vga)
    → InScreen v
    → 13 < ch
    → v.video_x + 1 < video_x_sz
    → ((video_putchar ch v).buffer (cell v.video_x v.video_y) ≡ ch)
      × ((video_putchar ch v).buffer (cell v.video_x v.video_y + 1) ≡ 0x0f)
      × ((video_putchar ch v).video_x ≡ v.video_x + 1)
      × ((video_putchar ch v).video_y ≡ v.video_y)
unfolding video_putchar update_cursor put_branch wrap_line wrap_screen video_putchar_at
video_putchar_shows ch v s printable room = ground arith
