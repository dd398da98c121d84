-- ===== src/Exit/Examples.antt =====
-- Tasks 1 to 3 have the numbers 1 to 3, and task 3 is a child of task 2.
use neu_os.Prelude.{◌≡◌, some, none, [], refl, arith, ◌==◌, if◌then◌else◌}
use neu_os.Task.{Task, Table}
use neu_os.Task.Sample.{a_task}
use neu_os.Exit.{do_exit}
use neu_os.Exit.Dead.{Exited, do_exit-Exited}
use neu_os.Kernel.Segment.{get_base}
use neu_os.Kernel.{Kernel, ok, reschedule}
use neu_os.Mm.State.{Run}
use neu_os.Mm.Space.{verify_area, verify_loop, free_page_tables, free_dirs}
use neu_os.Mm.Share.{write_verify}
use neu_os.Exit.Waitpid.{returned, echild, sys_waitpid}
use neu_os.Exit.Wait.{sys_waitpid-echild}

-- Its spaces start at 128 MB.
abbrev leaver : Task
leaver = record a_task { pid = 2; father = 1; ldt = λ i. record { a = 0; b = 0x800_0000 } }

abbrev tasks : Table
tasks i =
    if i == 1
    then some a_task
    else if i == 2
    then some leaver
    else if i == 3
    then some (record a_task { pid = 3; father = 2 })
    else none

abbrev kernel : Kernel
kernel = record {
  mm = record { phys = λ a. 0; mem_map = λ i. 100; high_memory = 0x30_0000; log = [] };
  sched = record { task = tasks; current = 2; jiffies = 7 };
  page_of = λ i. 0;
  gdt = λ i. record { a = 0; b = 0 };
  last_pid = 3;
  last_task_used_math = none;
}

verified : verify_area 0x800_0000 0x1000 4 kernel.mm ≡ Run.ok tt kernel.mm
unfolding verify_area verify_loop write_verify
verified = refl

-- Task 2 waits for its child, task 3.
sys_waitpid-echild_example :
    sys_waitpid 2 0x800_0000 3 0x1000 0 kernel ≡ ok (returned echild none) kernel
sys_waitpid-echild_example =
    sys_waitpid-echild 2 0x800_0000 3 0x1000 0 kernel kernel.mm verified refl (omega arith)

given_back : free_page_tables (get_base (leaver.ldt 1)) 0xa_0000 kernel.mm ≡ Run.ok 0 kernel.mm
unfolding free_page_tables free_dirs get_base
given_back = refl

-- Task 2 exits, and task 1 is its father.
do_exit-Exited_example :
    (k' : Kernel) × (do_exit 2 0xa_0000 0xa_0000 256 kernel ≡ reschedule 2 k')
    × Exited 2 256 leaver kernel.mm kernel k'
do_exit-Exited_example =
    do_exit-Exited 2 0xa_0000 0xa_0000 256 kernel 1 refl (omega arith) (omega arith) (omega arith)
      refl refl given_back given_back
