-- ===== src/Console/Scroll.antt =====
-- roll_screen and memcpy of kernel/chr_drv/vga_console.c.
use neu_os.Prelude.{
  ℕ, zero, suc, ◌+◌, ◌-◌, ◌*◌, ◌%◌, ◌≤◌, ◌≡◌, arith, ltb, leb, ◌&&◌, ◌==◌, if◌then◌else◌, update,
}
use neu_os.Console.{memcpy, move_lines, blank_last, roll_screen, video_putchar_at}

-- `a` with the bytes from `lo` up to `hi` taken from `b`.
abbrev pub splice : ℕ → ℕ → (ℕ → ℕ) → (ℕ → ℕ) → ℕ → ℕ
splice lo hi b a j = if leb lo j && ltb j hi then b j else a j

memcpy-splice :
    (n dest src : ℕ) (buf : ℕ → ℕ) (j : ℕ)
    → dest + n ≤ src
    → memcpy n dest src buf j ≡ splice dest (dest + n) (λ k. buf (k + src - dest)) buf j
unfolding memcpy
memcpy-splice zero dest src buf j apart = ground arith
memcpy-splice (suc n) dest src buf j apart =
    ground (arith, memcpy-splice n (dest + 1) (src + 1) (update buf dest (buf src)) j (omega arith))

-- Moving lines up takes each byte from the line below.
move_lines-splice :
    (n i : ℕ) (buf : ℕ → ℕ) (j : ℕ)
    → 1 ≤ i
    → move_lines n i buf j ≡ splice ((i - 1) * 160) ((i - 1 + n) * 160) (λ k. buf (k + 160)) buf j
unfolding move_lines
move_lines-splice zero i buf j pos = ground arith
move_lines-splice (suc n) i buf j pos = ground (
  arith,
  move_lines-splice n (i + 1) (memcpy 160 ((i - 1) * 160) (i * 160) buf) j (omega arith),
  memcpy-splice 160 ((i - 1) * 160) (i * 160) buf j (omega arith),
  memcpy-splice 160 ((i - 1) * 160) (i * 160) buf (j + 160) (omega arith),
)

blank_last-splice :
    (n i : ℕ) (buf : ℕ → ℕ) (j : ℕ)
    → i + n ≤ 80
    → blank_last n i buf j
      ≡ splice (3840 + 2 * i) (3840 + 2 * (i + n)) (λ k. if k % 2 == 0 then 32 else 0x0f) buf j
unfolding blank_last video_putchar_at
blank_last-splice zero i buf j room = ground arith
blank_last-splice (suc n) i buf j room =
    ground (arith, blank_last-splice n (i + 1) (video_putchar_at 32 i 24 0x0f buf) j)

-- The screen after roll_screen: lines 1 to 24 one line up, a blank last line, and nothing outside the
-- 4000 bytes of the screen changed.
abbrev pub rolled : (ℕ → ℕ) → ℕ → ℕ
rolled buf j =
    if ltb j 3840
    then buf (j + 160)
    else if ltb j 4000
    then (if j % 2 == 0 then 32 else 0x0f)
    else buf j

-- roll_screen moves the lines 1 to 24 one line up, fills the last line with blanks of attribute 0x0f, and changes no
-- byte outside the 4000 of the screen.
pub roll_screen-rolled : (buf : ℕ → ℕ) (j : ℕ) → roll_screen buf j ≡ rolled buf j
unfolding roll_screen
roll_screen-rolled buf j =
    ground (arith, blank_last-splice 80 0 (move_lines 24 1 buf) j, move_lines-splice 24 1 buf j)
