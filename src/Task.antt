-- ===== src/Task.antt =====
-- `struct task_struct` and the task table, include/linux/sched.h and include/signal.h.
-- A field holds its bit pattern. A pointer to a task is the task's number in `task[]`; the
-- floating-point state (struct i387_struct) is left out, since the code never reads it.
pub mod Sample
pub mod Init
use neu_os.Prelude.{ℕ, Option}

-- `struct sigaction`; a handler is its address.
pub record Sigaction : Type 0 where
  pub sa_handler : ℕ
  pub sa_mask : ℕ
  pub sa_flags : ℕ
  pub sa_restorer : ℕ

-- `struct desc_struct` of include/linux/head.h.
pub record Desc : Type 0 where
  pub a : ℕ
  pub b : ℕ

pub record Tss : Type 0 where
  pub back_link : ℕ
  pub esp0 : ℕ
  pub ss0 : ℕ
  pub esp1 : ℕ
  pub ss1 : ℕ
  pub esp2 : ℕ
  pub ss2 : ℕ
  pub cr3 : ℕ
  pub eip : ℕ
  pub eflags : ℕ
  pub eax : ℕ
  pub ecx : ℕ
  pub edx : ℕ
  pub ebx : ℕ
  pub esp : ℕ
  pub ebp : ℕ
  pub esi : ℕ
  pub edi : ℕ
  pub es : ℕ
  pub cs : ℕ
  pub ss : ℕ
  pub ds : ℕ
  pub fs : ℕ
  pub gs : ℕ
  pub ldt : ℕ
  pub bitmap : ℕ

pub record Task : Type 0 where
  pub state : ℕ
  pub counter : ℕ
  pub priority : ℕ
  pub signal : ℕ
  pub sigaction : ℕ → Sigaction
  pub blocked : ℕ
  pub exit_code : ℕ
  pub start_code : ℕ
  pub end_code : ℕ
  pub end_data : ℕ
  pub brk : ℕ
  pub start_stack : ℕ
  pub pid : ℕ
  pub father : ℕ
  pub pgrp : ℕ
  pub session : ℕ
  pub leader : ℕ
  pub uid : ℕ
  pub euid : ℕ
  pub suid : ℕ
  pub gid : ℕ
  pub egid : ℕ
  pub sgid : ℕ
  pub alarm : ℕ
  pub utime : ℕ
  pub stime : ℕ
  pub cutime : ℕ
  pub cstime : ℕ
  pub start_time : ℕ
  pub used_math : ℕ
  pub tty : ℕ
  pub ldt : ℕ → Desc
  pub tss : Tss

abbrev pub nr_tasks : ℕ
nr_tasks = 64

abbrev pub hz : ℕ
hz = 100

abbrev pub task_running : ℕ
task_running = 0

abbrev pub task_interruptible : ℕ
task_interruptible = 1

abbrev pub task_uninterruptible : ℕ
task_uninterruptible = 2

abbrev pub task_zombie : ℕ
task_zombie = 3

abbrev pub task_stopped : ℕ
task_stopped = 4

-- `task[]`: none for NULL.
abbrev pub Table : Type 0
Table = ℕ → Option Task

-- The globals of kernel/sched.c that the scheduler keeps.
pub record Sched : Type 0 where
  pub task : Table
  pub current : ℕ
  pub jiffies : ℕ
