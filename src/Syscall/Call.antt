-- ===== src/Syscall/Call.antt =====
-- system_call, sys_fork and timer_interrupt of kernel/system_call.s: from the interrupt to the return.
-- The calls that move data from or to the user's memory are modelled with the terminal and the signals;
-- here they are a record of operations. The segment registers that are set for the kernel, and the write that
-- ends the interrupt at the controller, are left out. `rounds` bounds the loops of schedule and find_empty_process.
use neu_os.Prelude.{
  ℕ, ◌%◌, ◌≡◌, refl, Option, none, some, List, [], ◌||◌, not, ltb, ◌==◌, if◌then◌else◌, update,
}
use neu_os.Prelude.Words.{add32, slt, minus_one}
use neu_os.Task.{Task, Sched, task_running}
use neu_os.Kernel.{Kernel, Act, ok, fault, stuck, pure, ◌>>=◌, ◌>>◌, on_task, memory}
use neu_os.Sched.{schedule, do_timer}
use neu_os.Sched.Clock.{sys_pause, sys_sleep, sleep_over}
use neu_os.Signal.{Regs, Delivered, sys_kill, sys_sgetmask, sys_ssetmask}
use neu_os.Fork.{find_empty_process}
use neu_os.Fork.Copy.{Frame, copy_process}
use neu_os.Syscall.{Handler, sys_call_table, entry, last_call, stub_result}
use neu_os.Syscall.Return.{regs_of, ret_from_syscall}

-- Each takes the registers ebx, ecx and edx.
pub record Transfers : Type 0 where
  pub tty_read : ℕ → ℕ → ℕ → Act ℕ
  pub user_tty_write : ℕ → ℕ → ℕ → Act ℕ
  pub sys_sigaction : ℕ → ℕ → ℕ → Act ℕ
  pub serial_debugstr : ℕ → Act ℕ

-- Where a process goes on that schedule has left for another one: behind the call of schedule in sys_sleep or
-- sys_pause, or at ret_from_syscall, with `eax` on its stack.
pub data Place : Type 0 where
  in_sleep in_pause : Place
  at_return : ℕ → Place

-- A handler has returned `eax`, or its process waits.
pub data Step : Type 0 where
  done : ℕ → Step
  waits : Place → Step

-- The interrupted code goes on with these registers and these words on its stack, or its process waits.
pub data Exit : Type 0 where
  returned : Regs → List (ℕ × ℕ) → Exit
  left : Place → Exit

-- `current`
unfoldable pub with_current : {A : Type 0} → (Task → Act A) → Act A
with_current f k = elim (k.sched.task k.sched.current) [ none ↦ fault | some t ↦ f t k ]

pub with_current-some :
    {A : Type 0} (f : Task → Act A) (k : Kernel) {t : Task}
    → k.sched.task k.sched.current ≡ some t
    → with_current f k ≡ f t k
unfolding with_current
with_current-some f k there = rw (with_current, there) refl

abbrev set_sched : Kernel → Sched → Kernel
set_sched k s = record k { sched = s }

abbrev set_task : Task → Kernel → Kernel
set_task t k =
    set_sched k (record (k.sched) { task = update k.sched.task k.sched.current (some t) })

-- Behind a call of schedule: the same process goes on with `again`, or it waits at `place`.
unfoldable pub behind : {A : Type 0} → Act A → A → Option Sched → Act A
behind again place none k = stuck
behind again place (some s) k =
    let on = again (set_sched k s) in
    if s.current == k.sched.current then on else ok place (set_sched k s)

unfoldable pub call_kill : ℕ → ℕ → Task → Act Step
call_kill pid sig t k =
    let (res, ts) = sys_kill t.euid pid sig k.sched.task in
    ok (done res) (set_sched k (record (k.sched) { task = ts }))

unfoldable pub call_ssetmask : ℕ → Task → Act Step
call_ssetmask newmask t k = let (old, t') = sys_ssetmask newmask t in ok (done old) (set_task t' k)

-- Behind schedule in sys_sleep.
unfoldable pub wake_from_sleep : Act Step
wake_from_sleep k = (on_task k.sched.current sleep_over >> pure (done 0)) k

-- `iret`, the result of do_signal in place.
abbrev pub go_to_user : Delivered → Act Exit
go_to_user d k = ok (returned d.regs d.stack) (set_task d.task k)

unfoldable pub return_signalled : ℕ → Frame → Task → Act Exit
return_signalled eax f t k = (memory (ret_from_syscall k.sched.current eax f t) >>= go_to_user) k

unfoldable pub return : ℕ → Frame → Act Exit
unfolding return_signalled with_current
return eax f = with_current (return_signalled eax f)

module _ (rounds : ℕ) where
  -- reschedule
  unfoldable pub reschedule : ℕ → Frame → Act Exit
  unfolding return behind
  reschedule eax f k = behind (return eax f) (left (at_return eax)) (schedule rounds k.sched) k

  -- system_call behind the call of the handler.
  unfoldable pub check_current : ℕ → Frame → Task → Act Exit
  unfolding return reschedule
  check_current eax f t =
      if not (t.state == task_running) || (t.counter == 0) then reschedule eax f else return eax f

  unfoldable pub after_call : Frame → Step → Act Exit
  unfolding check_current with_current
  after_call f (done eax) = with_current (check_current eax f)
  after_call f (waits p) = pure (left p)

  -- The process is chosen again.
  unfoldable pub resume : Place → Frame → Act Exit
  unfolding return after_call wake_from_sleep
  resume in_sleep f = wake_from_sleep >>= after_call f
  resume in_pause f = after_call f (done 0)
  resume (at_return eax) f = return eax f

  -- timer_interrupt behind `incl jiffies`, in the task `t`.
  unfoldable pub tick : ℕ → Frame → Task → Act Exit
  unfolding reschedule return
  tick eax f t k =
      let (t', over) = do_timer (f.cs % 4) t in
      let rest = reschedule eax f (set_task t' k) in
      let back = return eax f (set_task t' k) in if over then rest else back

  unfoldable pub timer_interrupt : ℕ → Frame → Act Exit
  unfolding tick with_current
  timer_interrupt eax f k =
      with_current (tick eax f)
        (set_sched k (record (k.sched) { jiffies = add32 k.sched.jiffies 1 }))

module _ (rounds code_limit data_limit : ℕ) where
  -- With the result of find_empty_process.
  unfoldable pub fork_at : Frame → Option (ℕ × ℕ) → Act ℕ
  fork_at f none k = stuck
  fork_at f (some (nr, pid)) k =
      let k' : Kernel = record k { last_pid = pid } in
      let forked = copy_process nr f code_limit data_limit k' in
      if slt nr 0 then ok nr k' else forked

  unfoldable pub sys_fork : Frame → Act ℕ
  unfolding fork_at
  sys_fork f k = fork_at f (find_empty_process rounds k.last_pid k.sched.task) k

module _ (dev : Transfers) (rounds code_limit data_limit : ℕ) where
  -- `call *sys_call_table(, %eax, 4)`
  unfoldable pub call : Handler → Frame → Act Step
  unfolding behind call_kill call_ssetmask wake_from_sleep sys_fork with_current
  call Handler.tty_read f = dev.tty_read f.ebx f.ecx f.edx >>= λ n. pure (done n)
  call Handler.stub_syscall f = pure (done stub_result)
  call Handler.sys_fork f = sys_fork rounds code_limit data_limit f >>= λ n. pure (done n)
  call Handler.user_tty_write f = dev.user_tty_write f.ebx f.ecx f.edx >>= λ n. pure (done n)
  call Handler.sys_sleep f =
      λ k. behind wake_from_sleep (waits in_sleep) (sys_sleep rounds f.ebx k.sched) k
  call Handler.sys_pause f =
      λ k. behind (pure (done 0)) (waits in_pause) (sys_pause rounds k.sched) k
  call Handler.sys_kill f = with_current (call_kill f.ebx f.ecx)
  call Handler.sys_sigaction f = dev.sys_sigaction f.ebx f.ecx f.edx >>= λ n. pure (done n)
  call Handler.sys_sgetmask f = with_current (λ t. pure (done (sys_sgetmask t)))
  call Handler.sys_ssetmask f = with_current (call_ssetmask f.ebx)
  call Handler.serial_debugstr f = dev.serial_debugstr f.ebx >>= λ n. pure (done n)

  unfoldable pub call_entry : Frame → Option Handler → Act Exit
  unfolding call after_call
  call_entry f none = λ k. fault
  call_entry f (some h) = call h f >>= after_call rounds f

  -- `int $0x80` with the number `nr` in eax.
  unfoldable pub system_call : ℕ → Frame → Act Exit
  unfolding call_entry
  system_call nr f =
      if ltb last_call nr
      then pure (returned (regs_of minus_one f) [])
      else call_entry f (entry nr sys_call_table)
