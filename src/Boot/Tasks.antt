-- ===== src/Boot/Tasks.antt =====
-- The task table and the descriptor table that sched_init of kernel/sched.c leaves.
use neu_os.Prelude.{
  ℕ, zero, suc, ◌+◌, ◌*◌, ◌^◌, ◌≤◌, ◌<◌, ◌≡◌, refl, ap, ◌∙◌, true, false, ◌&&◌, none, some, List,
  arith, ltb, leb, ◌==◌, if◌then◌else◌,
}
use neu_os.Task.{Task, Table, Desc, nr_tasks}
use neu_os.Kernel.Segment.{get_base, set_tssldt_desc, get_base-set_base}
use neu_os.Fork.{has_pid, pid_used, pid_loop, free_entry, find_empty_process}
use neu_os.Boot.{
  Handlers, Machine, set_intr_gate, set_system_gate, clear_task, clear_tasks, task_zero, unmask,
  sched_init,
}

abbrev pub no_desc : Desc
no_desc = record { a = 0; b = 0 }

clear_tasks-task :
    (n i : ℕ) (m : Machine) (j : ℕ)
    → (clear_tasks n i m).task j ≡ (if leb i j && ltb j (i + n) then none else m.task j)
unfolding clear_tasks clear_task
clear_tasks-task zero i m j = ground arith
clear_tasks-task (suc n) i m j = ground (arith, clear_tasks-task n (i + 1) (clear_task i m) j)

clear_tasks-gdt :
    (n i : ℕ) (m : Machine) (j : ℕ)
    → (clear_tasks n i m).gdt j
      ≡ (if leb (4 + 2 * i) j && ltb j (4 + 2 * (i + n)) then no_desc else m.gdt j)
unfolding clear_tasks clear_task
clear_tasks-gdt zero i m j = ground arith
clear_tasks-gdt (suc n) i m j = ground (arith, clear_tasks-gdt n (i + 1) (clear_task i m) j)

desc_base :
    (addr type : ℕ) → addr < 2 ^ 32 → type < 2 ^ 8 → get_base (set_tssldt_desc addr type) ≡ addr
desc_base addr type ha ht =
    let (back, limit, flags, base) =
      get_base-set_base addr no_desc type ha (omega arith) (omega arith) ht in
    base

-- The entries of the task table behind the first are free.
abbrev pub Alone : Table → Type 0
Alone ts = (i : ℕ) → 0 < i → i < nr_tasks → ts i ≡ none

pid_used-Alone :
    (n pid : ℕ) (ts : Table)
    → Alone ts
    → n < nr_tasks
    → pid_used (suc n) pid ts ≡ has_pid pid (ts 0)
unfolding pid_used
pid_used-Alone zero pid ts alone lt = ground arith
pid_used-Alone (suc n) pid ts alone lt =
    ground (arith, alone (suc n) (omega arith) lt, pid_used-Alone n pid ts alone (omega arith))

pub first_number :
    (ts : Table) (t : Task)
    → Alone ts
    → ts 0 ≡ some t
    → t.pid ≡ 0
    → find_empty_process 2 0 ts ≡ some (1, 1)
unfolding find_empty_process
first_number ts t alone there zero_pid =
    let taken : pid_used nr_tasks 0 ts ≡ true =
      pid_used-Alone 63 0 ts alone (omega arith)
      ∙ ap (has_pid 0) there
      ∙ ap (λ p. p == 0) zero_pid in
    let free : pid_used nr_tasks 1 ts ≡ false =
      pid_used-Alone 63 1 ts alone (omega arith)
      ∙ ap (has_pid 1) there
      ∙ ap (λ p. p == 1) zero_pid in
    let loop : pid_loop 2 0 0 ts ≡ some 1 = rw (pid_loop, taken) (rw (pid_loop, free) refl) in
    let entry : free_entry 63 1 ts ≡ 1 =
      rw (free_entry, alone 1 (omega arith) (omega arith)) refl in
    rw (find_empty_process, loop) (ap (λ i. some (i, 1)) entry)

module _ (inb : List (ℕ × ℕ) → ℕ → ℕ) (h : Handlers) (tss ldt : ℕ) (m : Machine) where
  sched_init-task :
      (j : ℕ)
      → (sched_init inb h tss ldt m).task j ≡ (if leb 1 j && ltb j 64 then none else m.task j)
  unfolding sched_init set_intr_gate set_system_gate unmask task_zero
  sched_init-task j = clear_tasks-task 63 1 (task_zero tss ldt m) j

  sched_init-gdt :
      (j : ℕ)
      → (sched_init inb h tss ldt m).gdt j
        ≡ (if leb 6 j && ltb j 132 then no_desc else (task_zero tss ldt m).gdt j)
  unfolding sched_init set_intr_gate set_system_gate unmask task_zero
  sched_init-gdt j = clear_tasks-gdt 63 1 (task_zero tss ldt m) j

  sched_init-gdt_kept : (j : ℕ) → j < 4 → (sched_init inb h tss ldt m).gdt j ≡ m.gdt j
  unfolding task_zero
  sched_init-gdt_kept j lt = sched_init-gdt j ∙ ground arith

  sched_init-gdt_cleared : (j : ℕ) → 6 ≤ j → j < 132 → (sched_init inb h tss ldt m).gdt j ≡ no_desc
  sched_init-gdt_cleared j lo hi = sched_init-gdt j ∙ ground arith

  free_behind : Alone (sched_init inb h tss ldt m).task
  free_behind i lo hi = sched_init-task i ∙ ground arith

-- sched_init leaves task 0 and frees the other entries; the descriptors of task 0 have the addresses of its
-- structures as bases, those of the other tasks are cleared, and those of the kernel are kept. The first
-- fork of task 0, whose number is 0, then has the number 1 and the entry 1.
pub sched_init-Alone :
    (inb : List (ℕ × ℕ) → ℕ → ℕ) (h : Handlers) (tss ldt : ℕ) (m : Machine) (t : Task)
    → tss < 2 ^ 32
    → ldt < 2 ^ 32
    → m.task 0 ≡ some t
    → t.pid ≡ 0
    → Alone (sched_init inb h tss ldt m).task
      × (find_empty_process 2 0 (sched_init inb h tss ldt m).task ≡ some (1, 1))
      × (get_base ((sched_init inb h tss ldt m).gdt 4) ≡ tss)
      × (get_base ((sched_init inb h tss ldt m).gdt 5) ≡ ldt)
      × ((j : ℕ) → j < 4 → (sched_init inb h tss ldt m).gdt j ≡ m.gdt j)
      × ((j : ℕ) → 6 ≤ j → j < 132 → (sched_init inb h tss ldt m).gdt j ≡ no_desc)
unfolding task_zero
sched_init-Alone inb h tss ldt m t ht hl there zero_pid = (
  free_behind inb h tss ldt m,
  first_number (sched_init inb h tss ldt m).task t (free_behind inb h tss ldt m)
      (sched_init-task inb h tss ldt m 0 ∙ there) zero_pid,
  ap get_base (sched_init-gdt inb h tss ldt m 4) ∙ desc_base tss 0x89 ht (omega arith),
  ap get_base (sched_init-gdt inb h tss ldt m 5) ∙ desc_base ldt 0x82 hl (omega arith),
  sched_init-gdt_kept inb h tss ldt m,
  sched_init-gdt_cleared inb h tss ldt m,
)
