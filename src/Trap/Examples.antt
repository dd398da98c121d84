-- ===== src/Trap/Examples.antt =====
-- An exception at 0x1234 in user mode, and an empty screen.
use neu_os.Prelude.{none, [], ◌==◌, if◌then◌else◌}
use neu_os.Tty.Queue.{Queue}
use neu_os.Tty.Line.{Terminal}
use neu_os.Trap.{Machine}

abbrev empty_q : Queue
empty_q = record { buf = λ i. 0; wait_proc = none; head = 0; tail = 0 }

abbrev terminal : Terminal
terminal = record {
  flags = 1;
  read_q = empty_q;
  write_q = empty_q;
  buffer = empty_q;
  screen = record { video_x = 0; video_y = 0; buffer = λ j. 32; ports = [] };
  task = λ i. none;
}

abbrev machine : Machine
machine = record {
  phys = λ a. if a == 0x9000 then 0x1234 else 0x17;
  code_base = 0x400_0000;
  limit = 0xa_0000;
  tr = 0x20;
}
