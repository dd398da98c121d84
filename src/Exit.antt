-- ===== src/Exit.antt =====
-- The end of a process, kernel/exit.c: release, tell_father, do_exit and sys_exit; Waitpid has sys_waitpid.
-- A function that calls schedule() is followed up to the state in which the next task runs. get_limit is
-- an instruction that reads the current descriptor: the limits are arguments.
pub mod Orphans
pub mod Told
pub mod Dead
pub mod Waitpid
pub mod Wait
mod Examples
use neu_os.Prelude.{
  ℕ, zero, suc, ◌+◌, ◌-◌, ◌*◌, ◌/◌, ◌%◌, ◌^◌, Bool, true, false, Option, none, some, ◌==◌,
  if◌then◌else◌, update,
}
use neu_os.Prelude.Words.{minus_one, word_mod}
use neu_os.Task.{Task, Table, nr_tasks, task_zombie}
use neu_os.Signal.{send_sig, raise}
use neu_os.Mm.Page.{free_page}
use neu_os.Mm.Space.{free_page_tables, verify_area}
use neu_os.Kernel.{
  Kernel, Out, Act, ok, panic, pure, ◌>>=◌, ◌>>◌, memory, tasks, current, set_tasks, on_task,
  reschedule,
}
use neu_os.Kernel.Segment.{get_base}

abbrev pub sigchld : ℕ
sigchld = 17

abbrev clear_entry : ℕ → Table → Table
clear_entry i ts = update ts i none

unfoldable pub free_task_page : ℕ → Act (Unit {0})
free_task_page i k = memory (free_page (k.page_of i)) k

abbrev stop : Act (Unit {0})
stop k = panic k

-- release(p): the loop over task[] finds `p` exactly where the table has a task of that number.
unfoldable pub release : ℕ → Option ℕ → Act (Unit {0})
release rounds none = pure tt
release rounds (some i) = do
  ts ← tasks
  elim (ts i) [
    | none ↦ stop
    | some t ↦ do set_tasks (clear_entry i ts); free_task_page i; reschedule rounds
  ]

-- The loop of tell_father over task[i], ...: the first task with the number gets SIGCHLD; none when
-- there is no such task.
unfoldable pub tell_loop : ℕ → ℕ → ℕ → Table → Option Table
tell_loop zero i pid ts = none
tell_loop (suc n) i pid ts =
    let rest = tell_loop n (i + 1) pid ts in
    elim (ts i) [
      | none ↦ rest
      | some t ↦ if t.pid == pid then some (update ts i (some (raise sigchld t))) else rest
    ]

unfoldable pub tell_father : ℕ → ℕ → Act (Unit {0})
tell_father rounds pid = do
  ts ← tasks
  me ← current
  elim (tell_loop nr_tasks 0 pid ts) [
    | none ↦ release rounds (some me)
    | some told ↦ set_tasks told
  ]

-- The body of the loop of do_exit at a task: an orphan gets init as father, and init gets SIGCHLD for a
-- zombie. `euid` is the caller's.
abbrev to_init : Task → Task
to_init t = record t { father = 1 }

unfoldable pub orphan : ℕ → ℕ → ℕ → Table → Table
orphan euid pid i ts = elim (ts i) [
  | none ↦ ts
  | some t ↦
      let adopted = update ts i (some (to_init t)) in
      if t.father == pid
      then (if t.state == task_zombie
          then update adopted 1 (send_sig euid sigchld (adopted 1) true).1
          else adopted)
      else ts
]

-- The loop over task[i], ...
unfoldable pub orphans : ℕ → ℕ → ℕ → ℕ → Table → Table
orphans zero i euid pid ts = ts
orphans (suc n) i euid pid ts = orphans n (i + 1) euid pid (orphan euid pid i ts)

unfoldable pub forget_math : ℕ → Act (Unit {0})
forget_math me k = ok tt (record k {
  last_task_used_math = elim k.last_task_used_math [
    | none ↦ none
    | some i ↦ if i == me then none else some i
  ];
})

unfoldable pub bury : ℕ → Task → Task
bury code t = record t { state = task_zombie; exit_code = code }

-- `tell_father(current->father)`
unfoldable pub tell_own_father : ℕ → ℕ → Act (Unit {0})
tell_own_father rounds me = do
  ts ← tasks
  elim (ts me) [ none ↦ stop | some t ↦ tell_father rounds t.father ]

-- The schedule() of do_exit. If tell_father has found no father, release(current) has called schedule before, which
-- has left the process for good.
unfoldable pub leave_at_exit : ℕ → ℕ → Act (Unit {0})
leave_at_exit rounds me k =
    let rest = reschedule rounds k in if k.sched.current == me then rest else ok tt k

-- The rest of do_exit, for the task `t` that runs.
unfoldable pub exit_task : ℕ → ℕ → Task → ℕ → ℕ → ℕ → Act (Unit {0})
exit_task rounds me t code_limit data_limit code = do
  memory (free_page_tables (get_base (t.ldt 1)) code_limit)
  memory (free_page_tables (get_base (t.ldt 2)) data_limit)
  ts ← tasks
  set_tasks (orphans nr_tasks 0 t.euid t.pid ts)
  forget_math me
  on_task me (bury code)
  tell_own_father rounds me
  leave_at_exit rounds me

-- do_exit, on the task that `current` points to, which stands in the table.
unfoldable pub do_exit : ℕ → ℕ → ℕ → ℕ → Act (Unit {0})
do_exit rounds code_limit data_limit code = do
  me ← current
  ts ← tasks
  elim (ts me) [ none ↦ stop | some t ↦ exit_task rounds me t code_limit data_limit code ]

-- `(error_code & 0xff) << 8`
unfoldable pub sys_exit : ℕ → ℕ → ℕ → ℕ → Act (Unit {0})
sys_exit rounds code_limit data_limit error_code =
    do_exit rounds code_limit data_limit (error_code % 2 ^ 8 * 2 ^ 8)
