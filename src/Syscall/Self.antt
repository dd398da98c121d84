-- ===== src/Syscall/Self.antt =====
-- A process that sends itself a signal: system_call, sys_kill, ret_from_syscall and do_signal in one.
use neu_os.Prelude.{
  ℕ, ◌-◌, ◌*◌, [], ◌∷◌, map, ◌<◌, ◌≡◌, refl, ◌≢◌, ◌∙◌, ap, some, ne→==_false, update,
}
use neu_os.Prelude.Bits.{bit}
use neu_os.Task.{Task, task_running}
use Prim.Native.Nat.{bit_or}
use neu_os.Mm.State.{Mm, Run}
use neu_os.Mm
use neu_os.Kernel.{Kernel, ok, and_then, from_run}
use neu_os.Signal.{Regs, Delivered, longs, sys_kill}
use neu_os.Signal.Deliver.{addresses, restore, masks}
use neu_os.Fork.Copy.{Frame}
use neu_os.Syscall.Return.{ret_from_syscall}
use neu_os.Syscall.Deliver.{Ready}
use neu_os.Syscall.Call.{
  with_current-some, go_to_user, Transfers, returned, done, after_call, check_current, return,
  return_signalled,
}

-- No signal below `sig` waits unblocked, and `sig` is not blocked.
abbrev pub First : ℕ → Task → Type 0
First sig t = (bit (sig - 1) t.blocked ≡ 0) × ((j : ℕ) → j < sig - 1 → ¬ Ready j t)

-- A process enters its handler of `sig` with the frame that do_signal builds for the registers `regs`: the signal
-- has ceased to wait, the others wait as before.
pub record Enters (sig : ℕ) (t : Task) (regs : Regs) (d : Delivered) : Type 0 where
  pub gone : bit (sig - 1) d.task.signal ≡ 0
  pub others : (j : ℕ) → j < 32 → j ≢ sig - 1 → bit j d.task.signal ≡ bit j t.signal
  pub blocked : d.task.blocked ≡ bit_or t.blocked (t.sigaction (sig - 1)).sa_mask
  pub entry : d.regs.eip ≡ (t.sigaction (sig - 1)).sa_handler
  pub top : d.regs.esp ≡ regs.esp - 4 * longs (t.sigaction (sig - 1))
  pub places : map (λ c. c.0) d.stack ≡ addresses d.regs.esp (longs (t.sigaction (sig - 1)))
  pub back :
      restore (masks (t.sigaction (sig - 1))) (map (λ c. c.1) d.stack)
      ≡ some (regs.eax ∷ regs.ecx ∷ regs.edx ∷ regs.eflags ∷ regs.eip ∷ [])

-- The kernel after sys_kill, and the kernel when the process goes on.
abbrev killed : Frame → Task → Kernel → Kernel
killed f t k = record k {
  sched = record (k.sched) { task = (sys_kill t.euid f.ebx f.ecx k.sched.task).1 };
}

abbrev gone_on : Kernel → Task → Mm → Kernel
gone_on k t m = record k {
  mm = m;
  sched = record (k.sched) { task = update k.sched.task k.sched.current (some t) };
}

module _ (dev : Transfers) (rounds code_limit data_limit : ℕ) (f : Frame) where
  check_current-return :
      (eax : ℕ) (k : Kernel) (t : Task)
      → t.state ≡ task_running
      → t.counter ≢ 0
      → check_current rounds eax f t k ≡ return eax f k
  unfolding check_current
  check_current-return eax k t running left =
      rw (check_current, running, ne→==_false t.counter 0 left) refl

  -- A runnable process with time left goes straight on, if do_signal returns.
  pub go_on :
      (eax : ℕ) (k : Kernel) {t : Task} {d : Delivered} {m : Mm}
      → k.sched.task k.sched.current ≡ some t
      → t.state ≡ task_running
      → t.counter ≢ 0
      → ret_from_syscall k.sched.current eax f t k.mm ≡ Run.ok d m
      → after_call rounds f (done eax) k ≡ ok (returned d.regs d.stack) (gone_on k d.task m)
  unfolding after_call return return_signalled
  go_on eax k {t} there running left back =
      with_current-some (check_current rounds eax f) k there
      ∙ check_current-return eax k t running left
      ∙ with_current-some (return_signalled eax f) k there
      ∙ ap (λ r. and_then (from_run k r) go_to_user) back
