-- ===== src/Task/Sample.antt =====
-- A task for the tests of the modules that work on one.
use neu_os.Task.{Task, Tss, Sigaction}

abbrev no_tss : Tss
no_tss = record {
  back_link = 0;
  esp0 = 0;
  ss0 = 0;
  esp1 = 0;
  ss1 = 0;
  esp2 = 0;
  ss2 = 0;
  cr3 = 0;
  eip = 0;
  eflags = 0;
  eax = 0;
  ecx = 0;
  edx = 0;
  ebx = 0;
  esp = 0;
  ebp = 0;
  esi = 0;
  edi = 0;
  es = 0;
  cs = 0;
  ss = 0;
  ds = 0;
  fs = 0;
  gs = 0;
  ldt = 0;
  bitmap = 0;
}

abbrev no_action : Sigaction
no_action = record { sa_handler = 0; sa_mask = 0; sa_flags = 0; sa_restorer = 0 }

abbrev pub a_task : Task
a_task = record {
  state = 0;
  counter = 2;
  priority = 15;
  signal = 0;
  sigaction = λ i. no_action;
  blocked = 0;
  exit_code = 0;
  start_code = 0;
  end_code = 0;
  end_data = 0;
  brk = 0;
  start_stack = 0;
  pid = 1;
  father = 0;
  pgrp = 0;
  session = 0;
  leader = 0;
  uid = 0;
  euid = 0;
  suid = 0;
  gid = 0;
  egid = 0;
  sgid = 0;
  alarm = 0;
  utime = 0;
  stime = 0;
  cutime = 0;
  cstime = 0;
  start_time = 0;
  used_math = 0;
  tty = 0;
  ldt = λ i. record { a = 0; b = 0 };
  tss = no_tss;
}
