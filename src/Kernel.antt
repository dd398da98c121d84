-- ===== src/Kernel.antt =====
-- The state that the process calls share (kernel/fork.c, kernel/exit.c): memory, the task table, the
-- descriptor table, and what a call of them can end in.
-- A pointer to a task is its number in `task[]`; `page_of` is the address of the page in which its
-- structure lies. The structure itself is in the table, not in the memory.
pub mod Segment
use neu_os.Prelude.{ℕ, Option, none, some}
use neu_os.Task.{Task, Table, Sched, Desc}
use neu_os.Mm.State.{Mm, Run, Cmd}
use neu_os.Sched.{modify, schedule}

pub record Kernel : Type 0 where
  pub mm : Mm
  pub sched : Sched
  pub page_of : ℕ → ℕ
  pub gdt : ℕ → Desc
  pub last_pid : ℕ
  pub last_task_used_math : Option ℕ

-- `panic` does not return; `fault` is an access of mem_map out of range, or through a `current` that is in no
-- entry of the table; `stuck` is a loop of schedule
-- that does not end in the rounds given.
pub data Out (A : Type 0) : Type 0 where
  ok : A → Kernel → Out A
  panic : Kernel → Out A
  fault stuck : Out A

abbrev pub Act : Type 0 → Type 0
Act A = Kernel → Out A

abbrev pub pure : {A : Type 0} → A → Act A
pure = ok

module _ {A B : Type 0} where
  abbrev pub and_then : Out A → (A → Act B) → Out B
  and_then (ok a k) f = f a k
  and_then (panic k) f = panic k
  and_then fault f = fault
  and_then stuck f = stuck

  infixl 5 ◌>>=◌ ◌>>◌
  abbrev pub ◌>>=◌ : Act A → (A → Act B) → Act B
  c >>= f = λ k. and_then (c k) f

  abbrev pub ◌>>◌ : Act A → Act B → Act B
  c >> d = c >>= λ _. d

-- A command on memory.
abbrev pub from_run : {A : Type 0} → Kernel → Run A → Out A
from_run k (Run.ok a m) = ok a (record k { mm = m })
from_run k (Run.panic m) = panic (record k { mm = m })
from_run k Run.fault = fault

abbrev pub memory : {A : Type 0} → Cmd A → Act A
memory c k = from_run k (c k.mm)

abbrev pub tasks : Act Table
tasks k = ok k.sched.task k

abbrev pub current : Act ℕ
current k = ok k.sched.current k

abbrev pub set_tasks : Table → Act (Unit {0})
set_tasks ts k = ok tt (record k { sched = record (k.sched) { task = ts } })

abbrev pub on_task : ℕ → (Task → Task) → Act (Unit {0})
on_task i f k = ok tt (record k { sched = record (k.sched) { task = modify i f k.sched.task } })

abbrev pub switched : Kernel → Option Sched → Out (Unit {0})
switched k none = stuck
switched k (some s) = ok tt (record k { sched = s })

-- schedule(), with the rounds of its loop.
abbrev pub reschedule : ℕ → Act (Unit {0})
reschedule rounds k = switched k (schedule rounds k.sched)
