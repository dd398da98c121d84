-- ===== src/Task/Init.antt =====
-- INIT_TASK of include/linux/sched.h, and the globals of kernel/sched.c as they are at the start: task 0 is
-- in the table and runs.
use neu_os.Prelude.{ℕ, ◌+◌, ◌*◌, none, some, ◌==◌, if◌then◌else◌}
use neu_os.Prelude.Words.{add32, minus_one}
use neu_os.Task.{Task, Tss, Desc, Sched, task_running}

-- `_TSS(n)` and `_LDT(n)`
unfoldable pub tss_selector : ℕ → ℕ
tss_selector n = n * 16 + 4 * 8

unfoldable pub ldt_selector : ℕ → ℕ
ldt_selector n = n * 16 + 5 * 8

-- `address` is that of init_task, `pg_dir` that of the page directory.
unfoldable pub init_tss : ℕ → ℕ → Tss
unfolding ldt_selector
init_tss address pg_dir = record {
  back_link = 0;
  esp0 = add32 4096 address;
  ss0 = 0x10;
  esp1 = 0;
  ss1 = 0;
  esp2 = 0;
  ss2 = 0;
  cr3 = pg_dir;
  eip = 0;
  eflags = 0;
  eax = 0;
  ecx = 0;
  edx = 0;
  ebx = 0;
  esp = 0;
  ebp = 0;
  esi = 0;
  edi = 0;
  es = 0x17;
  cs = 0x17;
  ss = 0x17;
  ds = 0x17;
  fs = 0x17;
  gs = 0x17;
  ldt = ldt_selector 0;
  bitmap = 0x8000_0000;
}

-- `{0, 0}, {0x9f, 0xc0fa00}, {0x9f, 0xc0f200}`
unfoldable pub init_ldt : ℕ → Desc
init_ldt i =
    if i == 1
    then record { a = 0x9f; b = 0xc0_fa00 }
    else if i == 2
    then record { a = 0x9f; b = 0xc0_f200 }
    else record { a = 0; b = 0 }

unfoldable pub init_task : ℕ → ℕ → Task
unfolding init_tss init_ldt
init_task address pg_dir = record {
  state = task_running;
  counter = 15;
  priority = 15;
  signal = 0;
  sigaction = λ i. record { sa_handler = 0; sa_mask = 0; sa_flags = 0; sa_restorer = 0 };
  blocked = 0;
  exit_code = 0;
  start_code = 0;
  end_code = 0;
  end_data = 0;
  brk = 0;
  start_stack = 0;
  pid = 0;
  father = minus_one;
  pgrp = 0;
  session = 0;
  leader = 0;
  uid = 0;
  euid = 0;
  suid = 0;
  gid = 0;
  egid = 0;
  sgid = 0;
  alarm = 0;
  utime = 0;
  stime = 0;
  cutime = 0;
  cstime = 0;
  start_time = 0;
  used_math = 0;
  tty = minus_one;
  ldt = init_ldt;
  tss = init_tss address pg_dir;
}

-- `task[NR_TASKS] = {&(init_task.task)}`, `current` and `jiffies`.
unfoldable pub initial : ℕ → ℕ → Sched
unfolding init_task
initial address pg_dir = record {
  task = λ i. if i == 0 then some (init_task address pg_dir) else none;
  current = 0;
  jiffies = 0;
}
