-- ===== src/Sched/Examples.antt =====
-- Task 2 runs with two ticks left, task 5 sleeps with an alarm that is over, task 7 has used up its
-- slice.

use neu_os.Prelude.{◌≡◌, refl, inl, inr, none, some, arith, ◌==◌, if◌then◌else◌, ℕ-cases}
use neu_os.Prelude.Bits.{bit-pow_ne}
use neu_os.Task.Sample.{a_task}
use neu_os.Task.{Task, Table, Sched, task_interruptible}
use neu_os.Sched.{schedule, signal_pass}
use neu_os.Sched.Switch.{HasPriority, Choice, schedule_ends, schedule-Choice}
use neu_os.Sched.Alarm.{OnlyKillStop, kill_never_wakes}
use neu_os.Sched.Tick.{ticks, slice_length}

abbrev sleeper : Task
sleeper = record a_task { state = task_interruptible; alarm = 10 }

abbrev killed : Task
killed = record a_task { state = task_interruptible; signal = 0x100 }

abbrev tasks : Table
tasks i =
    if i == 2
    then some a_task
    else if i == 5
    then some sleeper
    else if i == 7
    then some (record a_task { counter = 0 })
    else none

abbrev start : Sched
start = record { task = tasks; current = 7; jiffies = 20 }

only_kill : OnlyKillStop killed
only_kill k = elim (ℕ-cases k 8) [ inl e ↦ inl e | inr ne ↦ inr (inr (bit-pow_ne k 8 ne)) ]

abbrev doomed : Table
doomed i = if i == 5 then some killed else none

kill_never_wakes_example : signal_pass 20 doomed 5 ≡ some killed
kill_never_wakes_example =
    kill_never_wakes 20 doomed 5 {t = killed} (omega arith) (omega arith) refl only_kill (inl refl)

slice_length_example : ticks 5 a_task ≡ some 2
slice_length_example = slice_length 2 5 a_task refl (omega arith) (omega arith)

tasks-HasPriority : HasPriority tasks
tasks-HasPriority i t pos lt there = ground arith

schedule_ends_example : (s' : Sched) × (schedule 2 start ≡ some s')
schedule_ends_example = schedule_ends 2 start tasks-HasPriority (omega arith)

ran : (s' : Sched) × (schedule 2 start ≡ some s')
ran = schedule_ends 2 start tasks-HasPriority (omega arith)

schedule-Choice_example : Choice ran.0.task ran.0.current
schedule-Choice_example = schedule-Choice 2 start {s' = ran.0} ran.1
