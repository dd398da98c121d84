-- ===== src/Syscall/First.antt =====
-- The first fork of the system: main (init/main.c) calls it in task 0, with the task table as it is at the start.
use neu_os.Prelude.{ℕ, ◌≡◌, refl, some, arith}
use neu_os.Task.Init.{init_task, initial}
use neu_os.Kernel.{Kernel}
use neu_os.Fork.{find_empty_process}
use neu_os.Fork.Copy.{Frame}
use neu_os.Fork.Ends.{Ends}
use neu_os.Fork.Child.{Forked, copy_process-Forked}
use neu_os.Boot.Tasks.{Alone, first_number}
use neu_os.Syscall.Call.{fork_at, sys_fork}

initial-Alone : (address pg_dir : ℕ) → Alone (initial address pg_dir).task
unfolding initial
initial-Alone address pg_dir i lo hi = ground arith

-- The kernel at the first fork: nothing is asked of the memory, the descriptors and the like.
abbrev pub starting : ℕ → ℕ → Kernel → Kernel
starting address pg_dir k = record k { sched = initial address pg_dir; last_pid = 0 }

-- The first fork, made by task 0 from the task table and the numbers that the kernel starts with, asks for the
-- entry 1 and the number 1: it returns 1, and entry 1 holds a child of task 0 with its own 64 MB from 0x4000000 on; or it
-- returns -1 and entry 1 stays free; or it panics or accesses mem_map out of range. Task 0 is current
-- afterwards, and its entry and all but entry 1 are as before.
pub sys_fork-first :
    (address pg_dir code_limit data_limit : ℕ) (f : Frame) (k : Kernel)
    → let k' : Kernel = record (starting address pg_dir k) { last_pid = 1 } in
      Ends 1 k'
        (Forked 1 1 f (init_task address pg_dir))
        (sys_fork 2 code_limit data_limit f (starting address pg_dir k))
unfolding sys_fork fork_at initial init_task find_empty_process
sys_fork-first address pg_dir code_limit data_limit f k =
    let found : find_empty_process 2 0 (initial address pg_dir).task ≡ some (1, 1) =
      first_number (initial address pg_dir).task (init_task address pg_dir)
        (initial-Alone address pg_dir) refl refl in
    rw (sys_fork, found)
      (copy_process-Forked 1 f (init_task address pg_dir) code_limit data_limit
        (record (starting address pg_dir k) { last_pid = 1 }) (omega arith) refl refl)
