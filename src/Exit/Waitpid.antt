-- ===== src/Exit/Waitpid.antt =====
-- sys_waitpid of kernel/exit.c. Its loop skips every entry of task[] that is not NULL, and reads a task
-- structure through the entries that are: at address 0, where the page directory lies.
use Prim.Native.Nat.{bit_and, bit_xor}
use neu_os.Prelude.{
  ℕ, zero, suc, ◌-◌, ◌/◌, ◌%◌, ◌^◌, Bool, true, false, ◌&&◌, not, Option, none, some, ◌==◌,
  if◌then◌else◌,
}
use neu_os.Prelude.Words.{add32, sub32, slt, minus_one, word_mod}
use neu_os.Task.{Task, Table, nr_tasks, task_interruptible, task_zombie, task_stopped}
use neu_os.Sched.{set_state}
use neu_os.Mm.Space.{verify_area}
use neu_os.Kernel.{Act, ok, fault, pure, ◌>>◌, memory, on_task, reschedule}
use neu_os.Exit.{sigchld}

-- `-EINTR` and `-ECHILD`
abbrev pub eintr : ℕ
eintr = word_mod - 4

abbrev pub echild : ℕ
echild = word_mod - 10

-- What the loop reads of `**p`.
pub record Seen : Type 0 where
  pub state : ℕ
  pub exit_code : ℕ
  pub pid : ℕ
  pub father : ℕ
  pub pgrp : ℕ
  pub utime : ℕ
  pub stime : ℕ

-- The words at the fields' offsets in struct task_struct, from address 0.
unfoldable pub at_null : (ℕ → ℕ) → Seen
at_null phys = record {
  state = phys 0;
  exit_code = phys 532;
  pid = phys 556;
  father = phys 560;
  pgrp = phys 564;
  utime = phys 592;
  stime = phys 596;
}

-- What the body of the loop does with `**p`: nothing, set the flag, or return for a stopped or a dead child.
pub data Verdict : Type 0 where
  skip wait_for stopped dead : Verdict

-- WNOHANG and WUNTRACED
abbrev nohang : ℕ → Bool
nohang options = options % 2 == 1

abbrev untraced : ℕ → Bool
untraced options = options / 2 % 2 == 1

unfoldable pub judge_state : ℕ → ℕ → Verdict
judge_state options state =
    if state == task_stopped
    then (if untraced options then stopped else skip)
    else if state == task_zombie
    then dead
    else wait_for

unfoldable pub judge : ℕ → ℕ → Task → Seen → Verdict
unfolding judge_state
judge pid options me p =
    if not (p.father == me.pid)
    then skip
    else if slt 0 pid && not (p.pid == pid)
    then skip
    else if (pid == 0) && not (p.pgrp == me.pgrp)
    then skip
    else if not (pid == minus_one) && not (p.pgrp == sub32 0 pid)
    then skip
    else judge_state options p.state

-- How the loop ends: behind its last entry, with the flag, or by a return.
pub data Ending : Type 0 where
  passed : Bool → Ending
  on_stopped on_dead : Ending

-- The loop over task[n], ..., task[1]; `v` is what the body does with what it reads through NULL.
unfoldable pub wait_loop : Verdict → ℕ → Bool → Table → Ending
wait_loop v zero flag ts = passed flag
wait_loop v (suc n) flag ts =
    let rest = wait_loop v n flag ts in
    let waiting = wait_loop v n true ts in
    elim (ts (suc n)) [
      | some t ↦ rest
      | none ↦ elim v [ skip ↦ rest | wait_for ↦ waiting | stopped ↦ on_stopped | dead ↦ on_dead ]
    ]

-- The call returns, with the word that put_fs_long writes, if any, or its process sleeps.
pub data Waited : Type 0 where
  returned : ℕ → Option (ℕ × ℕ) → Waited
  sleeps : Waited

unfoldable pub add_times : Seen → Task → Task
add_times p t = record t { cutime = add32 t.cutime p.utime; cstime = add32 t.cstime p.stime }

-- Behind the loop. release(NULL) returns at once.
unfoldable pub end_wait : ℕ → ℕ → ℕ → ℕ → Seen → Ending → Act Waited
unfolding add_times
end_wait rounds me stat_addr options p (passed false) = pure (returned echild none)
end_wait rounds me stat_addr options p (passed true) =
    if nohang options
    then pure (returned 0 none)
    else (do on_task me (set_state task_interruptible); reschedule rounds; pure sleeps)
end_wait rounds me stat_addr options p on_stopped = pure (returned p.pid (some (stat_addr, 0x7f)))
end_wait rounds me stat_addr options p on_dead = do
  on_task me (add_times p)
  pure (returned p.pid (some (stat_addr, p.exit_code)))

-- From the label `repeat` on.
unfoldable pub repeat : ℕ → ℕ → ℕ → ℕ → Act Waited
unfolding at_null judge wait_loop end_wait
repeat rounds pid stat_addr options k = elim (k.sched.task k.sched.current) [
  | none ↦ fault
  | some t ↦
      let p = at_null k.mm.phys in
      end_wait rounds k.sched.current stat_addr options p
        (wait_loop (judge pid options t p) (nr_tasks - 1) false k.sched.task) k
]

-- When the process runs again behind schedule.
unfoldable pub woken : ℕ → ℕ → ℕ → ℕ → Act Waited
unfolding repeat
woken rounds pid stat_addr options k = elim (k.sched.task k.sched.current) [
  | none ↦ fault
  | some t ↦
      let again = repeat rounds pid stat_addr options k in
      if bit_and t.signal (bit_xor (2 ^ (sigchld - 1)) minus_one) == 0
      then again
      else ok (returned eintr none) k
]

-- `base` is get_base(current->ldt[2]), which verify_area adds.
unfoldable pub sys_waitpid : ℕ → ℕ → ℕ → ℕ → ℕ → Act Waited
unfolding repeat
sys_waitpid rounds base pid stat_addr options = do
  memory (verify_area base stat_addr 4)
  repeat rounds pid stat_addr options
