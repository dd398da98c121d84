-- ===== src/Syscall/Examples.antt =====
-- Task 2, with pid 7, runs and handles signal 2 at 0x8000; tasks 0 and 1 have the numbers 0 and 1.
use neu_os.Prelude.{
  ℕ, ◌+◌, ◌≤◌, ◌<◌, ◌≡◌, refl, ◌≢◌, ◌∙◌, ap, true, false, some, none, [], arith, ◌==◌,
  if◌then◌else◌,
}
use neu_os.Prelude.Words.{add32}
use neu_os.Task.{Task, Table, Sigaction, nr_tasks}
use neu_os.Task.Sample.{a_task}
use neu_os.Kernel.{Kernel, ok}
use neu_os.Fork.{pid_used}
use neu_os.Fork.Copy.{Frame}
use neu_os.Sched.Select.{Runs}
use neu_os.Syscall.{Handler, sys_call_table, entry, last_call, nr_kill}
use neu_os.Syscall.Return.{regs_of, ret_from_syscall}
use neu_os.Syscall.Table.{entry-named}
use neu_os.Syscall.Deliver.{Returned, ret_from_syscall-Returned}
use neu_os.Syscall.Call.{Transfers, returned, left, at_return, sys_fork, timer_interrupt}
use neu_os.Syscall.Fork.{ForkEnd, sys_fork-ForkEnd}
use neu_os.Syscall.First.{starting, sys_fork-first}
use neu_os.Task.Init.{init_task}
use neu_os.Fork.Ends.{Ends}
use neu_os.Fork.Child.{Forked}
use neu_os.Syscall.Timer.{Stays, timer_interrupt-Stays, timer_interrupt-Preempts}

abbrev action : Sigaction
action = record { sa_handler = 0x8000; sa_mask = 1; sa_flags = 0; sa_restorer = 0x9000 }

abbrev handling : Task
handling = record a_task { pid = 7; counter = 1; sigaction = λ i. action }

abbrev waiting : Task
waiting = record handling { signal = 6; blocked = 2 }

abbrev tasks : Table
tasks i =
    if i == 0
    then some (record a_task { pid = 0 })
    else if i == 1
    then some a_task
    else if i == 2
    then some handling
    else none

abbrev kernel : Kernel
kernel = record {
  mm = record { phys = λ a. 0; mem_map = λ i. 0; high_memory = 0x30_0000; log = [] };
  sched = record { task = tasks; current = 2; jiffies = 7 };
  page_of = λ i. 0;
  gdt = λ i. record { a = 0; b = 0 };
  last_pid = 1;
  last_task_used_math = none;
}

abbrev frame : Frame
frame = record {
  ebp = 0;
  edi = 0;
  esi = 0;
  gs = 0x17;
  ebx = 7;
  ecx = 2;
  edx = 3;
  fs = 0x17;
  es = 0x17;
  ds = 0x17;
  eip = 0x1234;
  cs = 0x0f;
  eflags = 0x202;
  esp = 0x5678;
  ss = 0x17;
}

abbrev interrupted : Frame
interrupted = record frame { cs = 8; ss = 0x10 }

abbrev transfers : Transfers
transfers = record {
  tty_read = λ a b c. ok 0;
  user_tty_write = λ a b c. ok 0;
  sys_sigaction = λ a b c. ok 0;
  serial_debugstr = λ a. ok 0;
}

entry-named_example :
    (nr_kill ≤ last_call → entry nr_kill sys_call_table ≡ some Handler.sys_kill)
    × (last_call < nr_kill → entry nr_kill sys_call_table ≡ none)
entry-named_example = entry-named nr_kill

ret_from_syscall-Returned_example : Returned 5 frame waiting (ret_from_syscall 2 5 frame waiting)
ret_from_syscall-Returned_example = ret_from_syscall-Returned 2 5 frame waiting (omega arith) refl

one_taken : pid_used nr_tasks 1 tasks ≡ true
unfolding pid_used
one_taken = refl

one_used : (i : ℕ) → i < 1 → pid_used nr_tasks (1 + i) tasks ≡ true
one_used i lt = ap (λ k. pid_used nr_tasks k tasks) {y = 1} (omega arith) ∙ one_taken

two_free : pid_used nr_tasks 2 tasks ≡ false
unfolding pid_used
two_free = refl

sys_fork-ForkEnd_example :
    ForkEnd frame handling
      (record kernel { last_pid = 2 })
      (sys_fork 9 0xa_0000 0xa_0000 frame kernel)
sys_fork-ForkEnd_example =
    sys_fork-ForkEnd 9 0xa_0000 0xa_0000 frame handling kernel 1 refl (omega arith) (omega arith)
      one_used two_free

timer_interrupt-Stays_example :
    (k' : Kernel) × (t' : Task) × (timer_interrupt 2 5 interrupted kernel
      ≡ ok (returned (regs_of 5 interrupted) []) k')
    × Stays kernel k' t'
    × (t'.stime ≡ add32 handling.stime 1)
timer_interrupt-Stays_example = timer_interrupt-Stays 2 5 interrupted kernel handling refl refl

one-Runs : Runs kernel.sched.task 2 1
one-Runs = record { who = a_task; there = refl; running = refl; counter = refl; pos = omega arith }

timer_interrupt-Preempts_example :
    (k' : Kernel) × (c' : ℕ) × (timer_interrupt 2 5 frame kernel ≡ ok (left (at_return 5)) k')
    × Runs k'.sched.task c' k'.sched.current
    × (c' ≢ 0)
    × (k'.sched.current ≢ 2)
    × ((u : Task) × (k'.sched.task 2 ≡ some u) × (u.counter ≡ 0))
timer_interrupt-Preempts_example =
    timer_interrupt-Preempts 1 5 frame kernel {t = handling} {c = 2} {j = 1} refl (omega arith)
      (omega arith) (omega arith) one-Runs (omega arith) (omega arith) (omega arith, omega arith)

sys_fork-first_example :
    Ends 1
      (record (starting 0x2_0000 0 kernel) { last_pid = 1 })
      (Forked 1 1 frame (init_task 0x2_0000 0))
      (sys_fork 2 0xa_0000 0xa_0000 frame (starting 0x2_0000 0 kernel))
sys_fork-first_example = sys_fork-first 0x2_0000 0 0xa_0000 0xa_0000 frame kernel
