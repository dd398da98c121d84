-- ===== src/Report/Examples.antt =====
-- A memory in which entry 2 of the page directory is present, and its table at 0x5000 has one entry, and an
-- empty screen.
use neu_os.Prelude.{ℕ, ◌≡◌, refl, some, none, List, [], ◌∷◌, arith, ◌==◌, if◌then◌else◌}
use neu_os.Mm.State.{Mm}
use neu_os.Tty.Queue.{Queue}
use neu_os.Tty.Queue.Contents.{IsValid}
use neu_os.Tty.Line.{Terminal}
use neu_os.Tty.Text.Lines.{all_text, Shown}
use neu_os.Report.{calc_mem}
use neu_os.Report.Calc.{Decimal, free_pages, free_line, DirReport, calc_mem-Shown}

abbrev empty_q : Queue
empty_q = record { buf = λ i. 0; wait_proc = none; head = 0; tail = 0 }

empty_q-IsValid : IsValid empty_q
empty_q-IsValid = record { head_in = omega arith; tail_in = omega arith }

abbrev terminal : Terminal
terminal = record {
  flags = 1;
  read_q = empty_q;
  write_q = empty_q;
  buffer = empty_q;
  screen = record { video_x = 0; video_y = 0; buffer = λ j. 32; ports = [] };
  task = λ i. none;
}

abbrev memory : Mm
memory = record {
  phys = λ a. if a == 8 then 0x5007 else if a == 0x5004 then 0x20_0007 else 0;
  mem_map = λ i. 0;
  high_memory = 0x30_0000;
  log = [];
}

calc_mem-Shown_example :
    (x : List ℕ) × (y : List ℕ) × (xs : List (List ℕ)) × (t' : Terminal) × Decimal
      (free_pages memory)
      x
    × Decimal 3840 y
    × DirReport memory.phys 1022 2 xs
    × (calc_mem 1024 14 memory terminal ≡ some t')
    × Shown (all_text (free_line x y ∷ xs)) terminal t'
calc_mem-Shown_example = calc_mem-Shown 1024 memory terminal (omega arith) empty_q-IsValid refl
