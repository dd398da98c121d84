-- ===== src/Syscall/Fork.antt =====
-- sys_fork of kernel/system_call.s: find_empty_process and copy_process in one.
use neu_os.Prelude.{ℕ, ◌+◌, ◌^◌, ◌≤◌, ◌<◌, ◌≡◌, ◌≢◌, true, false, some, none, arith}
use neu_os.Prelude.Words.{slt, minus_one}
use neu_os.Task.{Task, nr_tasks}
use neu_os.Kernel.{Kernel, Out, ok}
use neu_os.Fork.{pid_used}
use neu_os.Fork.Pid.{Entry, full, free_at, find_empty_process-Entry}
use neu_os.Fork.Copy.{Frame}
use neu_os.Fork.Ends.{Ends}
use neu_os.Fork.Child.{Forked, copy_process-Forked}
use neu_os.Syscall.Call.{fork_at, sys_fork}

-- What a call of sys_fork with the free number `pid` ends in, from the kernel `k` with that last_pid.
pub data ForkEnd (f : Frame) (parent : Task) (k : Kernel) : Out ℕ → Type 0 where
  no_entry :
      ((i : ℕ) → 1 ≤ i → i < nr_tasks → k.sched.task i ≢ none) → ForkEnd f parent k (ok minus_one k)
  entry :
      {o : Out ℕ} (nr : ℕ)
      → 1 ≤ nr
      → nr < nr_tasks
      → k.sched.task nr ≡ none
      → Ends nr k (Forked nr k.last_pid f parent) o
      → ForkEnd f parent k o

module _ (rounds code_limit data_limit : ℕ) (f : Frame) (parent : Task) (k : Kernel) where
  abbrev numbered : ℕ → Kernel
  numbered pid = record k { last_pid = pid }

  fork_at-ForkEnd :
      (pid : ℕ) {nr : ℕ}
      → k.sched.task k.sched.current ≡ some parent
      → Entry k.sched.task 63 1 nr
      → ForkEnd f parent (numbered pid) (fork_at rounds code_limit data_limit f (some (nr, pid)) k)
  unfolding fork_at
  fork_at-ForkEnd pid caller (full busy) = no_entry (λ i lo hi. busy i lo (omega arith))
  fork_at-ForkEnd pid caller (free_at {k = nr} lo hi empty) =
      let small : slt nr 0 ≡ false = ground arith in
      rw (fork_at, small)
        (entry nr lo (omega arith) empty (
          copy_process-Forked nr f parent code_limit data_limit (numbered pid) (omega arith) caller
            empty))

  -- If the numbers from last_pid on are used up to last_pid + j, which no task has, then sys_fork, called
  -- by a task of the table, sets last_pid to last_pid + j, and returns -1 with nothing else changed when the entries 1 to 63 are in use; else it finds a free one
  -- and there ends as copy_process does: with -1 and the entry still free, or with the new number and a child of
  -- the caller in it, or it panics or accesses mem_map out of range. The numbers stay below 2 ^ 31.
  pub sys_fork-ForkEnd :
      (j : ℕ)
      → k.sched.task k.sched.current ≡ some parent
      → k.last_pid + j < 2 ^ 31
      → j < rounds
      → ((i : ℕ) → i < j → pid_used nr_tasks (k.last_pid + i) k.sched.task ≡ true)
      → pid_used nr_tasks (k.last_pid + j) k.sched.task ≡ false
      → ForkEnd f parent
          (record k { last_pid = k.last_pid + j })
          (sys_fork rounds code_limit data_limit f k)
  unfolding sys_fork
  sys_fork-ForkEnd j caller small enough busy unused =
      let (nr, found, e) =
        find_empty_process-Entry j rounds k.last_pid k.sched.task small enough busy unused in
      rw (sys_fork, found) (fork_at-ForkEnd (k.last_pid + j) caller e)
