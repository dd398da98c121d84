-- ===== src/Sched.antt =====
-- kernel/sched.c: the scheduler, the timer tick, sleeping and waking.
-- schedule() returns to its caller only when the caller is chosen again; here it returns the state
-- in which the chosen task runs.
pub mod Alarm
pub mod Clock
pub mod Select
pub mod Switch
pub mod Tick
pub mod Wait
mod Examples
use Prim.Native.Nat.{bit_and, bit_or, bit_xor}
use mathlib.Core.Option
use neu_os.Prelude.{
  ℕ, zero, suc, ◌+◌, ◌-◌, ◌*◌, ◌/◌, ◌%◌, ◌^◌, Bool, true, false, ◌&&◌, not, Option, none, some, ltb,
  ◌==◌, if◌then◌else◌, update,
}
use neu_os.Prelude.Words.{add32, sub32, slt, sar1, minus_one}
use neu_os.Task.{
  Task, Table, Sched, nr_tasks, hz, task_running, task_interruptible, task_uninterruptible,
}

-- `1 << (SIGALRM - 1)`
abbrev pub sigalrm_bit : ℕ
sigalrm_bit = 2 ^ 13

-- `~(_S(SIGKILL) | _S(SIGSTOP))`
abbrev pub blockable : ℕ
blockable = 0xfffb_feff

-- The signals of a task that can wake it.
abbrev pub deliverable : Task → ℕ
deliverable t = bit_and t.signal (bit_and blockable (bit_xor t.blocked minus_one))

-- The first loop of schedule at one task: an alarm that is over raises SIGALRM, and a signal that
-- is not blocked makes an interruptible task runnable.
unfoldable pub raise_alarm : ℕ → Task → Task
raise_alarm jiffies t =
    if not (t.alarm == 0) && slt t.alarm jiffies
    then record t { signal = bit_or t.signal sigalrm_bit; alarm = 0 }
    else t

unfoldable pub rouse : Task → Task
rouse t =
    if not (deliverable t == 0) && (t.state == task_interruptible)
    then record t { state = task_running }
    else t

-- A loop over task[n], ..., task[1], which skips NULL entries.
unfoldable pub each_task : (Task → Task) → ℕ → Table → Table
each_task f zero ts = ts
each_task f (suc i) ts = each_task f i (update ts (suc i) (Option.map f (ts (suc i))))

unfoldable pub signal_pass : ℕ → Table → Table
signal_pass jiffies ts = each_task (λ t. rouse (raise_alarm jiffies t)) (nr_tasks - 1) ts

-- The `while (--i)` loop: the best counter so far and its task.
unfoldable pub better : Task → ℕ → Bool
better t c = (t.state == task_running) && slt c t.counter

unfoldable pub select : Table → ℕ → ℕ → ℕ → ℕ × ℕ
select ts zero c next = (c, next)
select ts (suc i) c next = elim (ts (suc i)) [
  | none ↦ select ts i c next
  | some t ↦ select ts i (if better t c then t.counter else c) (if better t c then suc i else next)
]

-- `counter = (counter >> 1) + priority` for every task but task[0].
unfoldable pub recharge : Task → Task
recharge t = record t { counter = add32 (sar1 t.counter) t.priority }

-- The `while (1)` loop of schedule; none when the rounds run out.
unfoldable pub choose : ℕ → Table → Option (ℕ × Table)
choose zero ts = none
choose (suc rounds) ts =
    let again = choose rounds (each_task recharge (nr_tasks - 1) ts) in
    let (c, next) = select ts (nr_tasks - 1) minus_one 0 in
    if c == 0 then again else some (next, ts)

unfoldable pub schedule : ℕ → Sched → Option Sched
schedule rounds s = elim (choose rounds (signal_pass s.jiffies s.task)) [
  | none ↦ none
  | some (next, ts) ↦ some (record s { task = ts; current = next })
]

-- A write to the task that a number denotes; a NULL entry is left alone.
unfoldable pub modify : ℕ → (Task → Task) → Table → Table
modify i f ts = update ts i (Option.map f (ts i))

unfoldable pub set_state : ℕ → Task → Task
set_state v t = record t { state = v }

-- wake_up(p): the argument and the result are `*p`.
unfoldable pub wake_up : Option ℕ → Table → Option ℕ × Table
unfolding modify set_state
wake_up none ts = (none, ts)
wake_up (some i) ts = (none, modify i (set_state task_running) ts)

-- do_timer up to its call of schedule. The flag says whether schedule is called.
unfoldable pub do_timer : ℕ → Task → Task × Bool
do_timer cpl t =
    let t' =
      if cpl == 0
      then record t { stime = add32 t.stime 1 }
      else record t { utime = add32 t.utime 1 } in
    let left = sub32 t.counter 1 in
    if slt 0 left
    then (record t' { counter = left }, false)
    else (record t' { counter = 0 }, not (cpl == 0))
