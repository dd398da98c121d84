-- ===== src/Fork.antt =====
-- kernel/fork.c: here the search for a process number and a place in the table, find_empty_process.
pub mod Pid
pub mod Copy
pub mod Ends
pub mod Child
mod Examples
use neu_os.Prelude.{
  ℕ, zero, suc, ◌+◌, ◌-◌, Bool, false, ◌||◌, Option, none, some, ◌==◌, if◌then◌else◌,
}
use neu_os.Prelude.Words.{add32, slt, minus_one}
use neu_os.Task.{Task, Table, nr_tasks}

abbrev pub has_pid : ℕ → Option Task → Bool
has_pid pid none = false
has_pid pid (some t) = t.pid == pid

-- The `for` loop over task[]: one of the first `n` tasks has the number.
unfoldable pub pid_used : ℕ → ℕ → Table → Bool
pid_used zero pid ts = false
pid_used (suc n) pid ts = has_pid pid (ts n) || pid_used n pid ts

-- The `while (1)` loop: the number that it ends with, from `tmp` on; none when the rounds run out.
unfoldable pub pid_loop : ℕ → ℕ → ℕ → Table → Option ℕ
pid_loop zero tmp last_pid ts = none
pid_loop (suc rounds) tmp last_pid ts =
    let next = add32 last_pid 1 in
    let rest = pid_loop rounds tmp (if slt next 0 then 1 else next) ts in
    if pid_used nr_tasks last_pid ts
    then (if next == tmp then some next else rest)
    else some last_pid

-- The first free entry among `n` from `i` on, or -1.
unfoldable pub free_entry : ℕ → ℕ → Table → ℕ
free_entry zero i ts = minus_one
free_entry (suc n) i ts = elim (ts i) [ none ↦ i | some t ↦ free_entry n (i + 1) ts ]

-- The result and last_pid.
unfoldable pub find_empty_process : ℕ → ℕ → Table → Option (ℕ × ℕ)
unfolding pid_loop free_entry
find_empty_process rounds last_pid ts = elim (pid_loop rounds last_pid last_pid ts) [
  | none ↦ none
  | some pid ↦ some (free_entry (nr_tasks - 1) 1 ts, pid)
]
