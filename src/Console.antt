-- ===== src/Console.antt =====
-- The text console, kernel/chr_drv/vga_console.c.
-- The video buffer is a map from byte offsets; `ports` lists the outb calls, the last one first.
pub mod Scroll
pub mod Cursor
pub mod Clear
mod Examples
use neu_os.Prelude.{
  ℕ, zero, suc, ◌+◌, ◌-◌, ◌*◌, ◌/◌, ◌%◌, List, [], ◌∷◌, Bool, not, ◌==◌, if◌then◌else◌, update,
}
use neu_os.Prelude.Words.{add32, sub32, slt, word_mod}

abbrev pub video_x_sz : ℕ
video_x_sz = 80

abbrev pub video_y_sz : ℕ
video_y_sz = 25

abbrev pub tab_len : ℕ
tab_len = 8

pub record Vga : Type 0 where
  pub video_x : ℕ
  pub video_y : ℕ
  pub buffer : ℕ → ℕ
  pub ports : List (ℕ × ℕ)

-- The port writes of update_cursor, the last one first.
unfoldable pub cursor_writes : ℕ → List (ℕ × ℕ)
cursor_writes pos =
    (0x3d5, pos / 256 % 256) ∷ (0x3d4, 0x0e) ∷ (0x3d5, pos % 256) ∷ (0x3d4, 0x0f) ∷ []

abbrev pub append : List (ℕ × ℕ) → List (ℕ × ℕ) → List (ℕ × ℕ)
append [] ps = ps
append (w ∷ ws) ps = w ∷ append ws ps

unfoldable pub update_cursor : ℕ → ℕ → Vga → Vga
unfolding cursor_writes
update_cursor row col v = record v {
  ports = append (cursor_writes ((row * video_x_sz + col) % word_mod)) v.ports;
}

-- Signed `v >= limit ? limit : v`.
abbrev pub clamp : ℕ → ℕ → ℕ
clamp limit v = if slt v limit then v else limit

abbrev pub cell : ℕ → ℕ → ℕ
cell x y = 2 * (x + 80 * y) % word_mod

abbrev pub put_cell : ℕ → ℕ → ℕ → (ℕ → ℕ) → ℕ → ℕ
put_cell ch attr at buf = update (update buf at ch) (at + 1) attr

unfoldable pub video_putchar_at : ℕ → ℕ → ℕ → ℕ → (ℕ → ℕ) → ℕ → ℕ
video_putchar_at ch x y attr buf = put_cell ch attr (cell (clamp 80 x) (clamp 25 y)) buf

-- memcpy(dest, src, count, size) with `n` = count * size bytes, in the order of its two loops.
unfoldable pub memcpy : ℕ → ℕ → ℕ → (ℕ → ℕ) → ℕ → ℕ
memcpy zero dest src buf = buf
memcpy (suc n) dest src buf = memcpy n (dest + 1) (src + 1) (update buf dest (buf src))

-- The first loop of roll_screen: `n` lines from line `i` on move up by one.
unfoldable pub move_lines : ℕ → ℕ → (ℕ → ℕ) → ℕ → ℕ
move_lines zero i buf = buf
move_lines (suc n) i buf = move_lines n (i + 1) (memcpy 160 ((i - 1) * 160) (i * 160) buf)

-- The second loop: `n` blanks in the last line from column `i` on.
unfoldable pub blank_last : ℕ → ℕ → (ℕ → ℕ) → ℕ → ℕ
blank_last zero i buf = buf
blank_last (suc n) i buf = blank_last n (i + 1) (video_putchar_at 32 i (video_y_sz - 1) 0x0f buf)

unfoldable pub roll_screen : (ℕ → ℕ) → ℕ → ℕ
roll_screen buf = blank_last video_x_sz 0 (move_lines (video_y_sz - 1) 1 buf)

-- `while (video_x % TAB_LEN) video_x++`: at most seven rounds.
unfoldable pub tab_loop : ℕ → ℕ → ℕ
tab_loop zero x = x
tab_loop (suc n) x = let next = tab_loop n (x + 1) in if x % tab_len == 0 then x else next

-- The branch of video_putchar for '\b', before the character is erased.
unfoldable pub step_back : ℕ → ℕ → ℕ × ℕ
step_back x y =
    let x' = sub32 x 1 in
    if slt x' 0 then (video_x_sz, if slt (sub32 y 1) 0 then 0 else sub32 y 1) else (x', y)

-- The branches of video_putchar on the character.
unfoldable pub put_branch : ℕ → Vga → Vga
put_branch ch v =
    let (bx, by) = step_back v.video_x v.video_y in
    if ch == 10
    then record v { video_x = 0; video_y = add32 v.video_y 1 }
    else if ch == 9
    then record v { video_x = tab_loop 7 v.video_x }
    else if ch == 8
    then record v { video_x = bx; video_y = by; buffer = video_putchar_at 32 bx by 0x0f v.buffer }
    else record v {
      buffer = video_putchar_at ch v.video_x v.video_y 0x0f v.buffer;
      video_x = add32 v.video_x 1;
    }

-- `if (video_x >= VIDEO_X_SZ)` and `if (video_y >= VIDEO_Y_SZ)`.
unfoldable pub wrap_line : Vga → Vga
wrap_line v =
    if slt v.video_x video_x_sz then v else record v { video_x = 0; video_y = add32 v.video_y 1 }

unfoldable pub wrap_screen : Vga → Vga
wrap_screen v =
    if slt v.video_y video_y_sz
    then v
    else record v { buffer = roll_screen v.buffer; video_x = 0; video_y = video_y_sz - 1 }

unfoldable pub video_putchar : ℕ → Vga → Vga
unfolding put_branch wrap_line wrap_screen
video_putchar ch v =
    let w = wrap_screen (wrap_line (put_branch ch v)) in update_cursor w.video_y w.video_x w

-- The inner loop of video_clear: `n` lines of column `i` from line `j` on.
unfoldable pub blank_column : ℕ → ℕ → ℕ → (ℕ → ℕ) → ℕ → ℕ
blank_column zero i j buf = buf
blank_column (suc n) i j buf = blank_column n i (j + 1) (video_putchar_at 32 i j 0x0f buf)

-- The outer loop: `n` columns from column `i` on.
unfoldable pub blank_columns : ℕ → ℕ → (ℕ → ℕ) → ℕ → ℕ
blank_columns zero i buf = buf
blank_columns (suc n) i buf = blank_columns n (i + 1) (blank_column video_y_sz i 0 buf)

unfoldable pub video_clear : Vga → Vga
video_clear v = record v { video_x = 0; video_y = 0; buffer = blank_columns video_x_sz 0 v.buffer }

unfoldable pub video_init : Vga → Vga
video_init v =
    let cleared = video_clear (record v { video_x = 0; video_y = 0 }) in
    update_cursor cleared.video_y cleared.video_x cleared
