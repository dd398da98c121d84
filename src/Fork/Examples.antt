-- ===== src/Fork/Examples.antt =====
-- Tasks 0 and 1 have the numbers 0 and 1, and entry 2 is free.
use neu_os.Prelude.{refl, some, none, [], arith, ◌==◌, if◌then◌else◌}
use neu_os.Task.{Task, Table}
use neu_os.Kernel.{Kernel}
use neu_os.Fork.Copy.{Frame, copy_process}
use neu_os.Fork.Ends.{Ends}
use neu_os.Fork.Child.{Forked, copy_process-Forked}
use neu_os.Task.Sample.{a_task}

abbrev tasks : Table
tasks i =
    if i == 0
    then some (record a_task { pid = 0 })
    else if i == 1
    then some (record a_task { pid = 1 })
    else none

abbrev parent : Task
parent = record a_task { pid = 0 }

abbrev kernel : Kernel
kernel = record {
  mm = record { phys = λ a. 0; mem_map = λ i. 0; high_memory = 0x30_0000; log = [] };
  sched = record { task = tasks; current = 0; jiffies = 7 };
  page_of = λ i. 0;
  gdt = λ i. record { a = 0; b = 0 };
  last_pid = 2;
  last_task_used_math = none;
}

abbrev frame : Frame
frame = record {
  ebp = 0;
  edi = 0;
  esi = 0;
  gs = 0x17;
  ebx = 1;
  ecx = 2;
  edx = 3;
  fs = 0x17;
  es = 0x17;
  ds = 0x17;
  eip = 0x1234;
  cs = 0x0f;
  eflags = 0x202;
  esp = 0x5678;
  ss = 0x17;
}

copy_process-Forked_example :
    Ends 2 kernel (Forked 2 2 frame parent) (copy_process 2 frame 0xa_0000 0xa_0000 kernel)
copy_process-Forked_example =
    copy_process-Forked 2 frame parent 0xa_0000 0xa_0000 kernel (omega arith) refl refl
