-- ===== src/Boot/Examples.antt =====
-- A machine with empty tables, on which every line of both controllers is masked.
use neu_os.Prelude.{ℕ, ◌%◌, ◌<◌, ◌≤◌, ◌≡◌, refl, some, List, [], ◌∷◌, arith, ◌==◌, if◌then◌else◌}
use neu_os.Task.{Task}
use neu_os.Task.Sample.{a_task}
use neu_os.Kernel.Segment.{get_base}
use neu_os.Fork.{find_empty_process}
use neu_os.Boot.{Handlers, Machine, start, sched_init}
use neu_os.Boot.Gates.{Gate, type_of, level_of, served, start-Gate}
use neu_os.Boot.Tasks.{Alone, no_desc, sched_init-Alone}

-- A port reads as the byte last written to it.
abbrev inb : List (ℕ × ℕ) → ℕ → ℕ
inb [] port = 255
inb ((p, v) ∷ log) port = if p == port then v % 256 else inb log port

abbrev handlers : Handlers
handlers = record {
  divide_error = 0x1000;
  debug = 0x1010;
  nmi = 0x1020;
  int3 = 0x1030;
  overflow = 0x1040;
  bounds = 0x1050;
  invalid_op = 0x1060;
  device_not_available = 0x1070;
  double_fault = 0x1080;
  coprocessor_segment_overrun = 0x1090;
  invalid_tss = 0x10a0;
  segment_not_present = 0x10b0;
  stack_segment = 0x10c0;
  general_protection = 0x10d0;
  page_fault = 0x10e0;
  reserved = 0x10f0;
  coprocessor_error = 0x1100;
  irq13 = 0x1110;
  parallel_interrupt = 0x1120;
  timer_interrupt = 0x1130;
  keyboard_interrupt = 0x1140;
  system_call = 0x1150;
}

abbrev first_task : Task
first_task = record a_task { pid = 0 }

abbrev machine : Machine
machine = record {
  idt = λ v. no_desc;
  gdt = λ j. no_desc;
  task = λ i. some first_task;
  screen = record { video_x = 0; video_y = 0; buffer = λ j. 0; ports = [] };
  mm = record { phys = λ a. 0; mem_map = λ i. 0; high_memory = 0; log = [] };
}

start-Gate_example :
    (m' : Machine) × (start inb handlers 0x2000 0x3000 machine ≡ some m')
    × ((v : ℕ) → v < 48 → Gate (type_of v) (level_of v) (served handlers v) (m'.idt v))
    × Gate 0xf 3 0x1150 (m'.idt 0x80)
start-Gate_example = start-Gate inb handlers 0x2000 0x3000 machine

sched_init-Alone_example :
    Alone (sched_init inb handlers 0x2000 0x3000 machine).task
    × (find_empty_process 2 0 (sched_init inb handlers 0x2000 0x3000 machine).task ≡ some (1, 1))
    × (get_base ((sched_init inb handlers 0x2000 0x3000 machine).gdt 4) ≡ 0x2000)
    × (get_base ((sched_init inb handlers 0x2000 0x3000 machine).gdt 5) ≡ 0x3000)
    × ((j : ℕ) → j < 4 → (sched_init inb handlers 0x2000 0x3000 machine).gdt j ≡ no_desc)
    × ((j : ℕ) → 6 ≤ j → j < 132 → (sched_init inb handlers 0x2000 0x3000 machine).gdt j ≡ no_desc)
sched_init-Alone_example =
    sched_init-Alone inb handlers 0x2000 0x3000 machine first_task (omega arith) (omega arith) refl
      refl
