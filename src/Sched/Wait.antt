-- ===== src/Sched/Wait.antt =====
-- Waiting on a pointer to a task: sleep_on and interruptible_sleep_on of kernel/sched.c.
-- A sleeper keeps the former `*p` in its own `tmp`, so that the sleepers form a chain through their
-- kernel stacks. Each function is cut at its call of schedule: other tasks run there.
pub mod Drain
pub mod Lost
mod Examples
use neu_os.Prelude.{
  ℕ, Bool, true, false, ◌&&◌, not, Option, none, some, ◌==◌, if◌then◌else◌, update, ◌≡◌, ◌≢◌,
}
use neu_os.Task.{Task, Table, task_running, task_interruptible, task_uninterruptible}
use neu_os.Sched.{modify, set_state, wake_up}

-- One `*p`; `saved i` is the `tmp` of task `i` while it is inside of a sleep function, and none otherwise.
pub record Waiting : Type 0 where
  pub head : Option ℕ
  pub saved : ℕ → Option (Option ℕ)
  pub task : Table

-- `if(tmp) tmp->state = TASK_RUNNING`
unfoldable pub rouse_task : Option ℕ → Table → Table
unfolding modify set_state
rouse_task none ts = ts
rouse_task (some i) ts = modify i (set_state task_running) ts

-- Up to schedule, for a task that is not task 0: `state` is the kind of sleep.
unfoldable pub enter : ℕ → ℕ → Waiting → Waiting
unfolding modify set_state
enter state me w = record {
  head = some me;
  saved = update w.saved me (some w.head);
  task = modify me (set_state state) w.task;
}

-- The panic on task 0 is none.
unfoldable pub sleep_on : ℕ → Waiting → Option Waiting
unfolding enter
sleep_on me w = if me == 0 then none else some (enter task_uninterruptible me w)

unfoldable pub interruptible_sleep_on : ℕ → Waiting → Option Waiting
unfolding enter
interruptible_sleep_on me w = if me == 0 then none else some (enter task_interruptible me w)

-- The rest of sleep_on, with the sleeper's `tmp`: `*p = tmp; if (tmp) tmp->state = TASK_RUNNING`.
unfoldable pub leave : ℕ → Option ℕ → Waiting → Waiting
unfolding rouse_task
leave me tmp w = record { head = tmp; saved = update w.saved me none; task = rouse_task tmp w.task }

abbrev someone_else : ℕ → Option ℕ → Bool
someone_else me none = false
someone_else me (some i) = not (i == me)

-- The rest of interruptible_sleep_on: a sleeper that is not at the head wakes the head and sleeps again.
unfoldable pub resume : ℕ → Option ℕ → Waiting → Waiting
unfolding leave
resume me tmp w =
    if someone_else me w.head
    then record w { task = modify me (set_state task_interruptible) (rouse_task w.head w.task) }
    else leave me tmp w

unfoldable pub wake : Waiting → Waiting
unfolding wake_up
wake w = let (head, tasks) = wake_up w.head w.task in record w { head = head; task = tasks }

-- The `state` of a task, none for an empty entry.
abbrev pub state_of : Table → ℕ → Option ℕ
state_of ts i = elim (ts i) [ none ↦ none | some t ↦ some t.state ]

-- What can happen to the pointer of sleep_on: a running task that is not inside goes to sleep, a sleeper
-- that has been made runnable goes on, or somebody calls wake_up.
pub data Step : Waiting → Waiting → Type 0 where
  enters :
      {w w' : Waiting} (me : ℕ)
      → w.saved me ≡ none
      → state_of w.task me ≡ some task_running
      → sleep_on me w ≡ some w'
      → Step w w'
  leaves :
      {w : Waiting} (me : ℕ) {tmp : Option ℕ}
      → w.saved me ≡ some tmp
      → state_of w.task me ≡ some task_running
      → Step w (leave me tmp w)
  wakes : {w : Waiting} → Step w (wake w)

pub data Reach (w : Waiting) : Waiting → Type 0 where
  here : Reach w w
  next : {u v : Waiting} → Reach w u → Step u v → Reach w v
