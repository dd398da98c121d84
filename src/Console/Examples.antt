-- ===== src/Console/Examples.antt =====
-- A screen full of the byte 1, with the cursor at several places.
use neu_os.Prelude.{ℕ, ◌≡◌, arith, []}
use neu_os.Console.{Vga, roll_screen, video_putchar}
use neu_os.Console.Scroll.{roll_screen-rolled}
use neu_os.Console.Cursor.{InScreen, video_putchar-InScreen}

abbrev screen : ℕ → ℕ → Vga
screen x y = record { video_x = x; video_y = y; buffer = λ j. 1; ports = [] }

-- The first byte of the last line is a blank.
roll_screen-rolled_example : roll_screen (λ j. j) 3840 ≡ 32
roll_screen-rolled_example = roll_screen-rolled (λ j. j) 3840

-- A line feed in the last line.
video_putchar-InScreen_example : InScreen (video_putchar 10 (screen 5 24))
video_putchar-InScreen_example =
    video_putchar-InScreen 10 (screen 5 24) (record { column = omega arith; line = omega arith })
