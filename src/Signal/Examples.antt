-- ===== src/Signal/Examples.antt =====
-- A task with pid 7 that handles signal 2 at 0x8000.
use neu_os.Prelude.{ℕ, ◌<◌, ◌≡◌, refl, some, none, ◌==◌, if◌then◌else◌}
use neu_os.Task.{Task, Table, Sigaction, nr_tasks}
use neu_os.Task.Sample.{a_task}
use neu_os.Signal.{Regs, sys_kill}
use neu_os.Signal.Kill.{Hit, sys_kill-Hit}

abbrev action : Sigaction
action = record { sa_handler = 0x8000; sa_mask = 1; sa_flags = 0; sa_restorer = 0x9000 }

abbrev handling : Task
handling = record a_task { pid = 7; sigaction = λ i. action }

abbrev tasks : Table
tasks i = if i == 3 then some handling else if i == 0 then some a_task else none

abbrev regs : Regs
regs = record { eax = 1; ecx = 2; edx = 3; eip = 0x1234; eflags = 0x202; esp = 0x5000 }

sys_kill-Hit_example :
    ((sys_kill 0 7 2 tasks).0 ≡ 0)
    × ((i : ℕ) → 0 < i → i < nr_tasks → Hit 7 2 (tasks i) ((sys_kill 0 7 2 tasks).1 i))
    × ((sys_kill 0 7 2 tasks).1 0 ≡ some a_task)
sys_kill-Hit_example = sys_kill-Hit 0 7 2 tasks refl refl
